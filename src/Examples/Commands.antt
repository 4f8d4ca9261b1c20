-- ===== src/Examples/Commands.antt =====
-- A stream of commands that satisfies what the program relies on.
use bf.Base.{ℕ, ◌≤◌, ◌≡◌, refl, List, [], ◌∷◌, ◌++◌, length, ap, arith, ◌==◌, if◌then◌else◌}
use bf.Rule.{FilterRule}
use bf.Stream.{put_err, get_err, put_word, get_word, put_rule, get_rule, IsRule}
use bf.Stream.Laws.{get_err-put_err, get_word-put_word, get_rule-put_rule}
use bf.Local.{Value, rule_value, err_value, done_value, other_value, CmdStream}
use bf.Local.Codec.{IsCmdStream, carried, IsValue}
use bf.Cli.{zeroed_rule}
use bf.Examples.Services.{big_endian, big_endian-IsDataStream}

-- A value behind a byte that tells its type.
abbrev put_tagged : Value → List ℕ
put_tagged (rule_value fr) = 0 ∷ put_rule big_endian fr []
put_tagged (err_value code) = 1 ∷ put_err big_endian zeroed_rule code []
put_tagged (done_value n) = 2 ∷ put_word big_endian n []
put_tagged other_value = 3 ∷ []

abbrev get_tagged : List ℕ → Value × List ℕ
get_tagged [] = (other_value, [])
get_tagged (t ∷ bytes) =
    if t == 0
    then (let (fr, rest) = get_rule big_endian zeroed_rule bytes in (rule_value fr, rest))
    else if t == 1
    then (let (fr, code, rest) = get_err big_endian zeroed_rule bytes in (err_value code, rest))
    else if t == 2
    then (let (n, rest) = get_word big_endian bytes in (done_value n, rest))
    else (other_value, bytes)

abbrev pub tagged : CmdStream
tagged = record { words = big_endian; put_value = put_tagged; get_value = get_tagged }

length-put_tagged : (v : Value) → length (put_tagged v) ≤ 1000
unfolding put_rule put_err put_word
length-put_tagged (rule_value fr) = omega arith
length-put_tagged (err_value code) = omega arith
length-put_tagged (done_value n) = omega arith
length-put_tagged other_value = omega arith

zeroed_rule-IsRule : IsRule zeroed_rule
zeroed_rule-IsRule = record {
  words = record {
    chain_u8 = omega arith;
    proto_u16 = omega arith;
    src_port_u16 = omega arith;
    dst_port_u16 = omega arith;
    s_addr_u32 = omega arith;
    d_addr_u32 = omega arith;
  };
  off_u8 = omega arith;
  policy_u8 = omega arith;
}

get_tagged-put_tagged :
    (v : Value) (rest : List ℕ)
    → IsValue v
    → get_tagged (put_tagged v ++ rest) ≡ (carried zeroed_rule v, rest)
unfolding put_rule put_err put_word
get_tagged-put_tagged (rule_value fr) rest w =
    ap (λ (x : FilterRule × List ℕ). (rule_value x.0, x.1))
      (get_rule-put_rule big_endian big_endian-IsDataStream zeroed_rule fr rest w)
get_tagged-put_tagged (err_value code) rest w =
    ap (λ (x : FilterRule × ℕ × List ℕ). (err_value x.1, x.2))
      (get_err-put_err big_endian big_endian-IsDataStream zeroed_rule zeroed_rule code rest
        zeroed_rule-IsRule w)
get_tagged-put_tagged (done_value n) rest w =
    ap (λ (x : ℕ × List ℕ). (done_value x.0, x.1))
      (get_word-put_word big_endian big_endian-IsDataStream n rest w)
get_tagged-put_tagged other_value rest w = refl

pub tagged-IsCmdStream : IsCmdStream tagged zeroed_rule
tagged-IsCmdStream = record {
  of_words = big_endian-IsDataStream;
  length-put8 = λ v. refl;
  length-put32 = λ v. refl;
  length-put_value = length-put_tagged;
  get_value-put_value = get_tagged-put_tagged;
}
