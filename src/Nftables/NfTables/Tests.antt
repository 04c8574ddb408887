-- ===== src/Nftables/NfTables/Tests.antt =====
-- A forwarding to two targets, added and removed.
use kertical.Prelude.{ℕ, String, List, [], ◌∷◌, ◌==◌, string_Eq, if◌then◌else◌}
use kertical.Forwarding.Types.{tcp}
use kertical.Nftables.Condition.Tests.{platform}
use kertical.Nftables.NfTables.Build.{Text, build_forwarding}
use kertical.Nftables.NfTables.Recognised.{BothMatch, remove-matches}

abbrev parse : String → List ℕ
parse s =
    if s == "10.0.0.1"
    then 10 ∷ 0 ∷ 0 ∷ 1 ∷ []
    else if s == "10.0.0.2"
    then 10 ∷ 0 ∷ 0 ∷ 2 ∷ []
    else []

abbrev text : Text
text = record {
  to_upper = λ s. s;
  to_lower = λ s. s;
  itoa = λ n. "80";
  bytes = λ s. [];
  parse_ip = parse;
  type_ip_addr = record { datatype_name = "ipv4_addr" };
  type_integer = record { datatype_name = "integer" };
  type_none = record { datatype_name = "" };
}

remove-matches_example :
    BothMatch platform text
      (build_forwarding platform text
        (λ suffix. 7)
        "KERTICAL"
        tcp
        80
        ("10.0.0.2" ∷ "10.0.0.1" ∷ [])
        8080
        "")
      (build_forwarding platform text
        (λ suffix. 9)
        "KERTICAL"
        tcp
        80
        ("10.0.0.2" ∷ "10.0.0.1" ∷ [])
        8080
        "web")
remove-matches_example =
    remove-matches platform text (λ suffix. 7) (λ suffix. 9) "KERTICAL" tcp 80
      ("10.0.0.2" ∷ "10.0.0.1" ∷ []) 8080 "web"
