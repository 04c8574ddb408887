-- ===== src/Nftables/NfTables/Build.antt =====
-- The tables that `structure` and `buildForwarding` describe, and the three methods of the
-- implementation.
use Prim.Native.String.{◌++◌ as ◌<>◌}
use kertical.Prelude.{
  ℕ, ◌+◌, ◌%◌, ◌^◌, String, Bool, true, false, Option, none, some, List, [], ◌∷◌, map,
  if◌then◌else◌, length, ltb,
}
use kertical.Forwarding.Types.{Protocol}
use kertical.Nftables.Expr.{Platform}
use kertical.Nftables.Condition.{
  to4, DynamicCondition, immediate_ip, compare_equals_ip, load_balancing, lookup_ip, Condition,
  combine, counting, destination_port, destination_ip, destination_nat, masquerade,
  source_local_addr, tracking_established_related, set_tracking_mark, tracking_mark, accept, jump,
  Conditions, nil, cons, transport_condition,
}
use kertical.Nftables.Tables.{Hook, prerouting, forward, output, postrouting, SetDatatype}
use kertical.Nftables.Mutation.{
  RuleMutation, plain_chain, base_chain, regular_chain, SetMutation, TableMutation,
}

-- `once` is whether the function of the sync.Once has run.
pub record NfTables : Type 0 where
  pub name : String
  pub family : ℕ
  pub once : Bool

-- strings.ToUpper and ToLower, strconv.Itoa, the bytes of a string, net.ParseIP with To4, the two types
-- of set keys, and the type with no name.
pub record Text : Type 0 where
  pub to_upper : String → String
  pub to_lower : String → String
  pub itoa : ℕ → String
  pub bytes : String → List ℕ
  pub parse_ip : String → List ℕ
  pub type_ip_addr : SetDatatype
  pub type_integer : SetDatatype
  pub type_none : SetDatatype

-- bytes.Compare(a, b) < 0
unfoldable pub bytes_before : List ℕ → List ℕ → Bool
bytes_before [] [] = false
bytes_before [] (y ∷ ys) = true
bytes_before (x ∷ xs) [] = false
bytes_before (x ∷ xs) (y ∷ ys) =
    let rest = bytes_before xs ys in if ltb x y then true else if ltb y x then false else rest

insert_ip : List ℕ → List (List ℕ) → List (List ℕ)
insert_ip ip [] = ip ∷ []
insert_ip ip (x ∷ xs) =
    let rest = insert_ip ip xs in if bytes_before x ip then x ∷ rest else ip ∷ x ∷ xs

unfoldable pub sort_ips : List (List ℕ) → List (List ℕ)
unfolding insert_ip
sort_ips [] = []
sort_ips (ip ∷ ips) = insert_ip ip (sort_ips ips)

rule : Conditions → List ℕ → RuleMutation
rule conditions comment = record { expr = combine conditions; first = false; comment = comment }

module _ (platform : Platform) (text : Text) where
  open text use {to_upper, to_lower, itoa, bytes, parse_ip, type_ip_addr, type_integer, type_none}
  open platform use {native_endian_uint32}

  unfoldable pub name_of : String → String → String
  name_of name suffix = name <> ("-" <> to_upper suffix)

  unfoldable pub map_name : String → ℕ → String → String
  map_name name from suffix =
      to_lower ("__map_" <> (name <> ("_" <> (itoa from <> ("_" <> suffix)))))

  unfoldable pub targets : List String → List (List ℕ)
  unfolding sort_ips
  targets target = sort_ips (map parse_ip target)

  unfoldable pub indexed : ℕ → List (List ℕ) → List (List ℕ × List ℕ)
  indexed n [] = []
  indexed n (ip ∷ ips) = (native_endian_uint32 (n % 2 ^ 32), to4 ip) ∷ indexed (n + 1) ips

  address_set :
      ℕ → String → SetDatatype → SetDatatype → String → List (List ℕ × List ℕ) → SetMutation
  address_set id name key value comment elements = record {
    id = id;
    name = name;
    key = key;
    value = value;
    comment = comment;
    elements = elements;
    kv_pairs = [];
  }

  -- `ids`: what rand.Uint32 gave for each suffix. One target needs no set.
  unfoldable pub outgoing :
      (String → ℕ)
      → String
      → String
      → ℕ
      → List (List ℕ)
      → String
      → DynamicCondition × List SetMutation
  unfolding indexed map_name address_set
  outgoing ids name comment from (ip ∷ []) suffix = (immediate_ip ip, [])
  outgoing ids name comment from ips suffix =
      let set_name = map_name name from suffix in
      (
        load_balancing (ids suffix) set_name (length ips),
        address_set (ids suffix) set_name type_integer type_ip_addr comment (indexed 0 ips) ∷ [],
      )

  unfoldable pub incoming :
      (String → ℕ)
      → String
      → String
      → ℕ
      → List (List ℕ)
      → String
      → DynamicCondition × List SetMutation
  unfolding map_name address_set
  incoming ids name comment from (ip ∷ []) suffix = (compare_equals_ip ip, [])
  incoming ids name comment from ips suffix =
      let set_name = map_name name from suffix in
      (
        lookup_ip (ids suffix) set_name,
        address_set (ids suffix) set_name type_ip_addr type_none comment
              (map (λ ip. (to4 ip, [])) ips)
            ∷ [],
      )

  unfoldable pub scaffold :
      String → String → String → Hook → RuleMutation → List SetMutation → TableMutation
  unfolding name_of
  scaffold name table chain hook r sets = record {
    name = table;
    hook = hook;
    chains = plain_chain (name_of name chain) (r ∷ []) ∷ [];
    sets = sets;
  }

  unfoldable pub foundation :
      String → String → String → Hook → Bool → List RuleMutation → TableMutation
  unfolding name_of rule
  foundation name table chain hook force_clean rules = record {
    name = table;
    hook = hook;
    chains =
        regular_chain (name_of name chain) force_clean rules
        ∷ base_chain chain
            (rule (cons counting (cons (jump (name_of name chain)) nil)) (bytes name) ∷ [])
        ∷ [];
    sets = [];
  }

  unfoldable pub structure : String → Bool → List TableMutation
  unfolding foundation
  structure name force_clean =
      foundation name "nat" "PREROUTING" prerouting force_clean []
      ∷ foundation name "nat" "POSTROUTING" postrouting force_clean []
      ∷ foundation name "filter" "FORWARD" forward force_clean (
          record {
            expr = combine (cons tracking_established_related (cons accept nil));
            first = true;
            comment = bytes name;
          }
          ∷ [])
      ∷ foundation name "nat" "OUTPUT" output force_clean []
      ∷ []

  -- The four tables of a forwarding whose protocol is `proto`.
  unfoldable pub forwarding_of :
      (String → ℕ)
      → String
      → Condition
      → (from : ℕ) → List (List ℕ)
      → (to : ℕ) → String
      → List TableMutation
  unfolding outgoing incoming scaffold rule
  forwarding_of ids name proto from ips to comment =
      let pre = outgoing ids name comment from ips "pre" in
      let post = incoming ids name comment from ips "post" in
      let through = incoming ids name comment from ips "forward" in
      let out = outgoing ids name comment from ips "output" in
      scaffold name "nat" "PREROUTING" prerouting
        (rule
          (cons proto (
            cons (destination_port from) (
              cons counting (cons (set_tracking_mark from) (cons (destination_nat pre.0 to) nil)))))
          (bytes comment))
        pre.1
      ∷ scaffold name "nat" "POSTROUTING" postrouting
          (rule
            (cons (destination_ip post.0) (
              cons proto (
                cons (destination_port to)
                  (cons (tracking_mark from) (cons counting (cons masquerade nil))))))
            (bytes comment))
          post.1
      ∷ scaffold name "filter" "FORWARD" forward
          (rule
            (cons (destination_ip through.0) (
              cons proto (
                cons (destination_port to)
                  (cons (tracking_mark from) (cons counting (cons accept nil))))))
            (bytes comment))
          through.1
      ∷ scaffold name "nat" "OUTPUT" output
          (rule
            (cons source_local_addr (
              cons proto (
                cons (destination_port from)
                  (cons counting (cons (destination_nat out.0 to) nil)))))
            (bytes comment))
          out.1
      ∷ []

  -- An unknown protocol panics: `none`.
  unfoldable pub build_forwarding :
      (String → ℕ)
      → String
      → Protocol
      → (from : ℕ) → List String
      → (to : ℕ) → String
      → Option (List TableMutation)
  unfolding forwarding_of targets
  build_forwarding ids name proto from target to comment =
      elim (transport_condition platform proto) [
        | none ↦ none
        | some condition ↦ some (forwarding_of ids name condition from (targets target) to comment)
      ]
