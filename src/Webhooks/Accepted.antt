-- ===== src/Webhooks/Accepted.antt =====
-- What the webhooks let through, the controller can work with.
use kertical.Prelude.{
  ℕ, ◌+◌, String, string_Eq, ◌≡◌, refl, Option, none, some, List, [], ◌∷◌, ◌++◌, SetPackage, arith,
  All,
}
use kertical.Controllers.Proxy.{
  IngressPath, IngressRule, ProxyBackend, ProxyPath, ProxyRule, ProxyIngress, ExternalProxy,
}
use kertical.Controllers.Proxy.Build.{
  new_ingress, ingress_with, rules_of, rule_with, rule_paths, paths_of, path_with,
}
use kertical.Webhooks.{child, Place, Problem, Library, and_also, nth, under}
use kertical.Webhooks.Kubernetes.{
  backend_problems, typed_path_problems, validate_http_ingress_path, validate_paths_from,
  validate_http_ingress_rule_value, rule_problems, validate_rules_from, validate_ingress_rules,
}
use kertical.Webhooks.Validation.{
  strict, validate_ingress, ingress_problems, validate_external_proxy,
}

pub append-nil : {A : Type 0} (xs ys : List A) → xs ++ ys ≡ [] → (xs ≡ []) × (ys ≡ [])
append-nil [] ys e = (refl, e)
append-nil (x ∷ xs) ys e = absurd (cc)

pub and_also-fine :
    (a b : Option (List Problem)) → and_also a b ≡ some [] → (a ≡ some []) × (b ≡ some [])
unfolding and_also
and_also-fine none b e = absurd (cc)
and_also-fine (some es) none e = absurd (cc)
and_also-fine (some es) (some fs) e =
    let empty : es ++ fs ≡ [] = cc in
    let (left, right) = append-nil es fs empty in (rw left refl, rw right refl)

-- The result is there.
abbrev pub IsGiven : {A : Type 0} → Option A → Type 0
IsGiven none = ⊥
IsGiven (some a) = Unit

-- The path has a type and a backend.
abbrev pub IsRouted : ProxyPath → Type 0
IsRouted x = IsGiven x.path_type × IsGiven x.backend

-- The rule has a list of paths, with at least one path.
abbrev pub HasPaths : Option (List ProxyPath) → Type 0
HasPaths none = ⊥
HasPaths (some []) = ⊥
HasPaths (some (x ∷ xs)) = All IsRouted (x ∷ xs)

module _ (lib : Library) where
  path-IsRouted :
      (t : Option String) (b : Option ProxyBackend) (x : ProxyPath) (place : Place)
      → x.path_type ≡ t
      → x.backend ≡ b
      → typed_path_problems lib t x place ≡ some []
      → IsRouted x
  unfolding typed_path_problems backend_problems
  path-IsRouted none b x place type backend e = absurd (cc)
  path-IsRouted (some t) none x place type backend e =
      let checked = (and_also-fine _ _ e).1 in absurd (ground (arith, checked, backend))
  path-IsRouted (some t) (some b) x place type backend e = (rw type tt, rw backend tt)

  paths-IsRouted :
      (place : Place) (n : ℕ) (xs : List ProxyPath)
      → validate_paths_from lib place n xs ≡ some []
      → All IsRouted xs
  unfolding validate_paths_from validate_http_ingress_path
  paths-IsRouted place n [] e = tt
  paths-IsRouted place n (x ∷ xs) e =
      let (one, others) = and_also-fine _ _ e in
      (
        path-IsRouted x.path_type x.backend x (nth (under place "paths") n) refl refl one,
        paths-IsRouted place (n + 1) xs others,
      )

  rule-HasPaths :
      (paths : Option (List ProxyPath)) (place : Place)
      → validate_http_ingress_rule_value lib paths place ≡ some []
      → HasPaths paths
  unfolding validate_http_ingress_rule_value
  rule-HasPaths none place e = absurd (cc)
  rule-HasPaths (some []) place e = let (given, _) = and_also-fine _ _ e in absurd (cc)
  rule-HasPaths (some (x ∷ xs)) place e = paths-IsRouted place 0 (x ∷ xs) (and_also-fine _ _ e).1

  rule-paths :
      (r : ProxyRule) (place : Place)
      → rule_problems lib strict r place ≡ some []
      → validate_http_ingress_rule_value lib r.paths place ≡ some []
  unfolding rule_problems
  rule-paths r place e = ground (arith, e)

  rules-HasPaths :
      (place : Place) (n : ℕ) (rs : List ProxyRule)
      → validate_rules_from lib strict place n rs ≡ some []
      → All (λ r. HasPaths r.paths) rs
  unfolding validate_rules_from
  rules-HasPaths place n [] e = tt
  rules-HasPaths place n (r ∷ rs) e =
      let (one, others) = and_also-fine _ _ e in
      let (host, paths) = and_also-fine _ _ one in
      (
        rule-HasPaths r.paths (nth place n) (rule-paths r (nth place n) paths),
        rules-HasPaths place (n + 1) rs others,
      )

module _ (sets : SetPackage String) (lib : Library) (print : ℕ → String)
    (parse4 parse6 : String → Option String)
    (slice_name : (service : String) → (index : ℕ) → (suffix : String) → String)
    (p : ExternalProxy) where
  path_with-IsGiven :
      (x : ProxyPath) (backend : Option ProxyBackend) (rest : Option (List IngressPath))
      (place : Place)
      → backend_problems lib backend place ≡ some []
      → IsGiven rest
      → IsGiven (path_with print parse4 parse6 slice_name p x backend rest)
  unfolding path_with backend_problems
  path_with-IsGiven x none rest place e h = absurd (cc)
  path_with-IsGiven x (some b) none place e h = h
  path_with-IsGiven x (some b) (some rest) place e h = tt

  path-backend :
      (t : Option String) (x : ProxyPath) (place : Place)
      → typed_path_problems lib t x place ≡ some []
      → backend_problems lib x.backend (under place "backend") ≡ some []
  unfolding typed_path_problems
  path-backend none x place e = absurd (cc)
  path-backend (some t) x place e = (and_also-fine _ _ e).1

  paths_of-IsGiven :
      (place : Place) (n : ℕ) (xs : List ProxyPath)
      → validate_paths_from lib place n xs ≡ some []
      → IsGiven (paths_of print parse4 parse6 slice_name p xs)
  unfolding paths_of validate_paths_from validate_http_ingress_path
  paths_of-IsGiven place n [] e = tt
  paths_of-IsGiven place n (x ∷ xs) e =
      let (one, others) = and_also-fine _ _ e in
      path_with-IsGiven x x.backend (paths_of print parse4 parse6 slice_name p xs)
        (under (nth (under place "paths") n) "backend")
        (path-backend x.path_type x (nth (under place "paths") n) one)
        (paths_of-IsGiven place (n + 1) xs others)

  rule_paths-IsGiven :
      (paths : Option (List ProxyPath)) (place : Place)
      → validate_http_ingress_rule_value lib paths place ≡ some []
      → IsGiven (rule_paths print parse4 parse6 slice_name p paths)
  unfolding rule_paths validate_http_ingress_rule_value
  rule_paths-IsGiven none place e = absurd (cc)
  rule_paths-IsGiven (some xs) place e = paths_of-IsGiven place 0 xs (and_also-fine _ _ e).1

  rule_with-IsGiven :
      (r : ProxyRule) (paths : Option (List IngressPath)) (rest : Option (List IngressRule))
      → IsGiven paths
      → IsGiven rest
      → IsGiven (rule_with print parse4 parse6 slice_name r paths rest)
  unfolding rule_with
  rule_with-IsGiven r none rest one others = one
  rule_with-IsGiven r (some ys) none one others = others
  rule_with-IsGiven r (some ys) (some rest) one others = tt

  rules_of-IsGiven :
      (place : Place) (n : ℕ) (rs : List ProxyRule)
      → validate_rules_from lib strict place n rs ≡ some []
      → IsGiven (rules_of print parse4 parse6 slice_name p rs)
  unfolding rules_of validate_rules_from
  rules_of-IsGiven place n [] e = tt
  rules_of-IsGiven place n (r ∷ rs) e =
      let (one, others) = and_also-fine _ _ e in
      let (host, paths) = and_also-fine _ _ one in
      rule_with-IsGiven r (rule_paths print parse4 parse6 slice_name p r.paths)
        (rules_of print parse4 parse6 slice_name p rs)
        (rule_paths-IsGiven r.paths (nth place n) (rule-paths lib r (nth place n) paths))
        (rules_of-IsGiven place (n + 1) rs others)

  ingress_with-IsGiven :
      (i : ProxyIngress) (rules : Option (List IngressRule))
      → IsGiven rules
      → IsGiven (ingress_with print parse4 parse6 slice_name p i rules)
  unfolding ingress_with
  ingress_with-IsGiven i none h = h
  ingress_with-IsGiven i (some rules) h = tt

  ingress-rules :
      (i : ProxyIngress) (found : Option ProxyIngress) (place : Place)
      → found ≡ some i
      → ingress_problems sets lib found place ≡ some []
      → validate_ingress_rules lib strict i.rules (under place "rules") ≡ some []
  unfolding ingress_problems validate_ingress
  ingress-rules i none place e fine = absurd (cc)
  ingress-rules i (some j) place e fine =
      let same : j ≡ i = cc in rw⁻¹ same (and_also-fine _ _ fine).1

  -- If the validator accepts an ExternalProxy that asks for an Ingress, then each of its rules has at least
  -- one path, each path has a type and a backend, and NewIngress builds the Ingress with no panic.
  pub new_ingress-IsGiven :
      (i : ProxyIngress)
      → p.ingress ≡ some i
      → validate_external_proxy sets lib p ≡ some []
      → All (λ r. HasPaths r.paths) i.rules
        × IsGiven (new_ingress print parse4 parse6 slice_name p i)
  unfolding new_ingress validate_external_proxy validate_ingress_rules
  new_ingress-IsGiven i asked fine =
      let place : Place = under (child "spec" ∷ child "ingress" ∷ []) "rules" in
      let (rest, checked) = and_also-fine _ _ fine in
      let rules = ingress-rules i p.ingress _ asked checked in
      (
        rules-HasPaths lib place 0 i.rules rules,
        ingress_with-IsGiven i (rules_of print parse4 parse6 slice_name p i.rules)
            (rules_of-IsGiven place 0 i.rules rules),
      )
