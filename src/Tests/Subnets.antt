-- ===== src/Tests/Subnets.antt =====
-- The client-subnet option of a query.
use pathdns.Base.{
  ℕ, ◌-◌, ◌^◌, ◌<◌, ◌≡◌, List, [], ◌∷◌, ◌++◌, some, ok, reject, length, take, drop, if◌then◌else◌,
  refl, arith,
}
use pathdns.Base.Bytes.{IsBytes, word16, byte}
use pathdns.Dns.Name.Walk.{root}
use pathdns.Dns.Rr.{v4}
use pathdns.Dns.Ecs.{
  EcsSubnet, OptLocation, ecs_option_code, locate_opt, skip_questions, skip_records, locate_loop,
  located, strip_edns_ecs, inject_or_replace_ecs,
}
use pathdns.Dns.Ecs.Located.{LocatedAt}
use pathdns.Dns.Ecs.Options.{EdnsOption, encode, encode_all, others, has_ecs, subnet_data}
use pathdns.Dns.Ecs.Rewrite.{
  with_rdata, strip_edns_ecs-with_rdata, inject_or_replace_ecs-with_rdata,
}
use pathdns.Tests.Packets.{header, question, queries}

-- The subnet 1.2.3.0/24, and a cookie of two bytes.
abbrev options : List EdnsOption
options = (8, 0 ∷ 1 ∷ 24 ∷ 0 ∷ 1 ∷ 2 ∷ 3 ∷ []) ∷ (10, 5 ∷ 6 ∷ []) ∷ []

abbrev packet : List ℕ
packet =
    header 1 0 0 1
    ++ (question
        ++ (0 ∷ 0 ∷ 41 ∷ 0x10 ∷ 0 ∷ 0 ∷ 0 ∷ 0 ∷ 0 ∷ 0 ∷ 17 ∷ 0 ∷ 8 ∷ 0 ∷ 7 ∷ 0 ∷ 1 ∷ 24 ∷ 0 ∷ 1 ∷ 2
            ∷ 3 ∷ 0 ∷ 10 ∷ 0 ∷ 2 ∷ 5 ∷ 6 ∷ []))

packet-IsBytes : IsBytes packet
packet-IsBytes = omega arith

abbrev location : OptLocation
location = record { name_end = 20; rdata_start = 30; rdata_end = 47 }

packet_located : located packet ≡ ok location
unfolding located locate_opt skip_questions skip_records locate_loop queries
packet_located = refl

opt_located : locate_opt packet ≡ ok (some location)
unfolding locate_opt skip_questions skip_records locate_loop queries
opt_located = refl

location-LocatedAt : LocatedAt packet location
unfolding word16 byte
location-LocatedAt = record {
  owner = 19;
  name = root (omega arith) refl refl;
  opt_type = refl;
  start_at = refl;
  end_at = refl;
  inside = omega arith;
}

options_there : take (47 - 30) (drop 30 packet) ≡ encode_all options
unfolding encode_all encode
options_there = refl

strip_edns_ecs-with_rdata_example : strip_edns_ecs packet ≡ (
    if has_ecs options
    then ok (with_rdata packet location (encode_all (others options)))
    else reject)
strip_edns_ecs-with_rdata_example =
    strip_edns_ecs-with_rdata packet location options packet_located location-LocatedAt
      options_there ((omega arith, omega arith), ((omega arith, omega arith), tt)) packet-IsBytes

abbrev subnet : EcsSubnet
subnet = record { addr = v4 (10 ∷ 20 ∷ 30 ∷ 40 ∷ []); prefix_len = 16 }

total :
    length (encode_all (others options ++ ((ecs_option_code, subnet_data subnet) ∷ []))) < 2 ^ 16
unfolding encode_all encode others subnet_data
total = omega arith

inject_or_replace_ecs-with_rdata_example :
    inject_or_replace_ecs packet subnet
    ≡ ok (
        with_rdata packet location
          (encode_all (others options ++ ((ecs_option_code, subnet_data subnet) ∷ []))))
inject_or_replace_ecs-with_rdata_example =
    inject_or_replace_ecs-with_rdata packet location options subnet (omega arith) opt_located
      location-LocatedAt options_there
      ((omega arith, omega arith), ((omega arith, omega arith), tt)) total
