-- ===== src/Names.antt =====
-- common/trx_data.h: the names of protocols, switches, policies and chains on the command line and in
-- the output. A text is the list of its bytes.
pub mod Laws
use Prim.Native.Char.{code}
use Prim.Native.String.{String}
use Prim.Native.String
use bf.Base.{ℕ, ◌+◌, Bool, true, false, ◌&&◌, List, [], ◌∷◌, ltb, if◌then◌else◌, ◌==◌}
use bf.Rule.{
  chain_none, chain_all, chain_input, chain_output, policy_drop, policy_accept, policy_none, sw_no,
  sw_yes, sw_none, ipproto_tcp, ipproto_udp, ipproto_all, ipproto_notexist,
}

abbrev pub Text : Type 0
Text = List ℕ

abbrev pub codes : String → Text
codes String.[] = []
codes (String.◌∷◌ c s) = code c ∷ codes s

-- tolower of the C locale
unfoldable pub tolower : ℕ → ℕ
tolower c = if ltb c b'A' then c else if ltb b'Z' c then c else c + 32

-- `strcasecmp(a, b) == 0`
unfoldable pub strcasecmp_zero : Text → Text → Bool
unfolding tolower
strcasecmp_zero [] [] = true
strcasecmp_zero [] (y ∷ b) = false
strcasecmp_zero (x ∷ a) [] = false
strcasecmp_zero (x ∷ a) (y ∷ b) = tolower x == tolower y && strcasecmp_zero a b

unfoldable pub get_sw_name : ℕ → Text
get_sw_name s = if s == sw_no then codes "NO" else if s == sw_yes then codes "YES" else codes "NONE"

unfoldable pub get_policy_name : ℕ → Text
get_policy_name p =
    if p == policy_drop
    then codes "DROP"
    else if p == policy_accept
    then codes "ACCEPT"
    else codes "NONE"

unfoldable pub get_proto : Text → ℕ
unfolding strcasecmp_zero
get_proto proto =
    if strcasecmp_zero proto (codes "ALL")
    then ipproto_all
    else if strcasecmp_zero proto (codes "TCP")
    then ipproto_tcp
    else if strcasecmp_zero proto (codes "UDP")
    then ipproto_udp
    else ipproto_notexist

unfoldable pub get_proto_name : ℕ → Text
get_proto_name proto =
    if proto == ipproto_notexist
    then codes "ALL"
    else if proto == ipproto_tcp
    then codes "TCP"
    else if proto == ipproto_udp
    then codes "UDP"
    else codes "NONE"

unfoldable pub get_switch : Text → ℕ
unfolding strcasecmp_zero
get_switch off =
    if strcasecmp_zero off (codes "NO")
    then sw_no
    else if strcasecmp_zero off (codes "YES")
    then sw_yes
    else sw_none

unfoldable pub get_policy : Text → ℕ
unfolding strcasecmp_zero
get_policy policy =
    if strcasecmp_zero policy (codes "DROP")
    then policy_drop
    else if strcasecmp_zero policy (codes "ACCEPT")
    then policy_accept
    else policy_none

unfoldable pub get_chain_name : ℕ → Text
get_chain_name chain =
    if chain == chain_all
    then codes "ALL"
    else if chain == chain_input
    then codes "INPUT"
    else if chain == chain_output
    then codes "OUTPUT"
    else codes "NONE"

unfoldable pub get_chain : Text → ℕ
unfolding strcasecmp_zero
get_chain dir =
    if strcasecmp_zero dir (codes "ALL")
    then chain_all
    else if strcasecmp_zero dir (codes "INPUT")
    then chain_input
    else if strcasecmp_zero dir (codes "OUTPUT")
    then chain_output
    else chain_none
