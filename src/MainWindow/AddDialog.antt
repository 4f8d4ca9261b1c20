-- ===== src/MainWindow/AddDialog.antt =====
-- tests/bfctl_gui/adddialog.cpp: the dialog for a new rule. Of its fields, `port` is toUInt of the port's
-- text, and `host` the address that QHostAddress reads in the other text, or `none` where it is null.
use bf.Base.{ℕ, ◌%◌, ◌^◌, ◌≡◌, Bool, false, Option, none, some, if◌then◌else◌, ◌==◌, arith}
use bf.Rule.{FilterRule, policy_rule}
use bf.Names.{Text, get_proto}
use bf.Kernel.{ntohl}
use bf.MainWindow.{new_rule}

pub record AddDialog : Type 0 where
  pub chain : ℕ
  pub proto : Text
  pub port : ℕ
  pub any : Bool
  pub host : Option ℕ

pub data AcceptEnd : Type 0 where
  accepted : FilterRule → AcceptEnd
  wrong_ip_address wrong_port_number : AcceptEnd

-- accept; htonl swaps the bytes as ntohl does.
unfoldable pub accept : FilterRule → AddDialog → AcceptEnd
accept blank d =
    let hostaddr = if d.any then some 0 else d.host in
    let src_port = d.port % 2 ^ 16 in
    elim hostaddr [
      | none ↦ wrong_ip_address
      | some a ↦
          if src_port == 0
          then wrong_port_number
          else accepted (record (new_rule blank) {
            base = record {
              chain = d.chain;
              proto = get_proto d.proto % 2 ^ 16;
              src_port = src_port;
              dst_port = 0;
              s_addr = ntohl a;
              d_addr = 0;
            };
          })
    ]

-- A rule that the dialog accepts is no policy rule.
pub accept-policy_rule :
    (blank : FilterRule) (d : AddDialog) (fr : FilterRule)
    → accept blank d ≡ accepted fr
    → policy_rule fr.base ≡ false
unfolding accept policy_rule
accept-policy_rule blank d fr h = ground (arith, h)
