-- ===== src/Stream.antt =====
-- The stream operators of common/trx_data.h for rules. QDataStream is Qt's: a parameter gives the bytes
-- of its integers, and the value and the rest that a read yields.
pub mod Laws
use bf.Base.{ℕ, ◌^◌, ◌<◌, ◌≤◌, ◌≡◌, List, ◌∷◌, ◌++◌, length}
use bf.Rule.{FilterRule, FilterRuleBase, IsBase}

pub record DataStream : Type 0 where
  pub put8 : ℕ → List ℕ
  pub put16 : ℕ → List ℕ
  pub put32 : ℕ → List ℕ
  pub get8 : List ℕ → ℕ × List ℕ
  pub get16 : List ℕ → ℕ × List ℕ
  pub get32 : List ℕ → ℕ × List ℕ

-- What the program relies on: a written word is read back, and a read takes bytes from the front, at
-- least one where there is one, also when it is cut short.
pub record IsDataStream (s : DataStream) : Type 0 where
  pub get8-put8 : (v : ℕ) (rest : List ℕ) → v < 2 ^ 8 → s.get8 (s.put8 v ++ rest) ≡ (v, rest)
  pub get16-put16 : (v : ℕ) (rest : List ℕ) → v < 2 ^ 16 → s.get16 (s.put16 v ++ rest) ≡ (v, rest)
  pub get32-put32 : (v : ℕ) (rest : List ℕ) → v < 2 ^ 32 → s.get32 (s.put32 v ++ rest) ≡ (v, rest)
  pub get8-le : (bytes : List ℕ) → length (s.get8 bytes).1 ≤ length bytes
  pub get16-le : (bytes : List ℕ) → length (s.get16 bytes).1 ≤ length bytes
  pub get32-le : (bytes : List ℕ) → length (s.get32 bytes).1 ≤ length bytes
  pub get16-lt : (b : ℕ) (bytes : List ℕ) → length (s.get16 (b ∷ bytes)).1 < length (b ∷ bytes)

-- operator<< for a rule, before the bytes that follow: neither the number of the rule nor its hardware
-- addresses are written.
unfoldable pub put_rule : DataStream → FilterRule → List ℕ → List ℕ
put_rule s fr rest =
    s.put16 fr.base.src_port
    ++ (s.put16 fr.base.dst_port
        ++ (s.put32 fr.base.s_addr
            ++ (s.put32 fr.base.d_addr
                ++ (s.put16 fr.base.proto
                    ++ (s.put8 fr.base.chain ++ (s.put8 fr.policy ++ (s.put8 fr.off ++ rest)))))))

-- operator>> for a rule: the fields that it does not read stay as they are in `fr`.
unfoldable pub get_rule : DataStream → FilterRule → List ℕ → FilterRule × List ℕ
get_rule s fr bytes =
    let (src_port, b1) = s.get16 bytes in
    let (dst_port, b2) = s.get16 b1 in
    let (s_addr, b3) = s.get32 b2 in
    let (d_addr, b4) = s.get32 b3 in
    let (proto, b5) = s.get16 b4 in
    let (chain, b6) = s.get8 b5 in
    let (policy, b7) = s.get8 b6 in
    let (off, b8) = s.get8 b7 in
    (
      record fr {
        base = record {
          chain = chain;
          proto = proto;
          src_port = src_port;
          dst_port = dst_port;
          s_addr = s_addr;
          d_addr = d_addr;
        };
        policy = policy;
        off = off;
      },
      b8,
    )

-- The operators for msg_err_t, with its rule and its code.
unfoldable pub put_err : DataStream → FilterRule → ℕ → List ℕ → List ℕ
unfolding put_rule
put_err s fr code rest = put_rule s fr (s.put16 code ++ rest)

unfoldable pub get_err : DataStream → FilterRule → List ℕ → FilterRule × ℕ × List ℕ
unfolding get_rule
get_err s fr bytes =
    let (fr', b1) = get_rule s fr bytes in let (code, b2) = s.get16 b1 in (fr', code, b2)

-- The operators for msg_done_t, with its counter, and for log_subscribe_msg_t, with its `pid`.
unfoldable pub put_word : DataStream → ℕ → List ℕ → List ℕ
put_word s v rest = s.put32 v ++ rest

unfoldable pub get_word : DataStream → List ℕ → ℕ × List ℕ
get_word s bytes = s.get32 bytes

-- The fields of a rule that travel are words of their widths.
pub record IsRule (fr : FilterRule) : Type 0 where
  pub words : IsBase fr.base
  pub off_u8 : fr.off < 2 ^ 8
  pub policy_u8 : fr.policy < 2 ^ 8
