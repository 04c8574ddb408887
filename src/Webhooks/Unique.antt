-- ===== src/Webhooks/Unique.antt =====
-- The names of the ports of a Service that the validator lets through.
use kertical.Prelude.{
  ℕ, ◌+◌, String, string_Eq, Bool, true, false, not, ◌&&◌, ◌||◌, ◌≡◌, refl, some, List, [], ◌∷◌,
  ◌++◌, ◌==◌, SetPackage, if◌then◌else◌, Bool-cases, inl, inr, arith, All,
}
use text.Mathlib.TextEquality.{eq_iff}
use kertical.Controllers.Ports.{ServicePort}
use kertical.Controllers.Proxy.{ExternalProxy}
use kertical.Webhooks.{child, Place, Problem, required, duplicate, Library, nth, under}
use kertical.Webhooks.Kubernetes.{is_empty, problem_if, validate_dns1123_label}
use kertical.Webhooks.Validation.{
  required_if_none, validate_meta, service_port_problems, named, service_port_name,
  service_ports_from, several, validate_service, validate_backends, validate_external_proxy,
}
use kertical.Webhooks.Accepted.{append-nil, and_also-fine}

-- Neither port has a name, or the names differ.
abbrev pub clash : ServicePort → ServicePort → Bool
clash p q = not (is_empty p.name) && p.name == q.name

-- Each port that has to have a name has one, and no two have the same.
abbrev pub Unique : (require_name : Bool) → List ServicePort → Type 0
Unique require_name [] = Unit
Unique require_name (p ∷ ps) =
    ((require_name && is_empty p.name) ≡ false)
    × All (λ q. clash p q ≡ false) ps
    × Unique require_name ps

module _ (sets : SetPackage String) (lib : Library) where
  open sets use {Set, new, insert, has, has-insert}

  -- The name of a port is free, given the names before it.
  abbrev IsFree : Set → ServicePort → Type 0
  IsFree seen p = (not (is_empty p.name) && has p.name seen) ≡ false

  -- What the check of a name tells, and the set that it leaves.
  Checked : (require_name : Bool) → String → Set → Set → Type 0
  Checked require_name name seen seen' =
      ((require_name && is_empty name) ≡ false)
      × ((not (is_empty name) && has name seen) ≡ false)
      × ((n : String) → has n seen' ≡ (not (is_empty name) && name == n || has n seen))

  problem-none : (b : Bool) (p : Problem) → problem_if b p ≡ [] → b ≡ false
  problem-none true p e = absurd (cc)
  problem-none false p e = refl

  -- The result of the check of a name, if it has no errors.
  IsChecked : (require_name : Bool) → String → Set → List Problem × Set → Type 0
  IsChecked require_name name seen r = r.0 ≡ [] → Checked require_name name seen r.1

  named-Checked :
      (require_name : Bool) (name : String) (place : Place) (seen : Set)
      → is_empty name ≡ false
      → IsChecked require_name name seen (named sets lib name place seen)
  unfolding named Checked IsChecked
  named-Checked require_name name place seen given e =
      let (label, twice) =
        append-nil (validate_dns1123_label lib name (under place "name"))
          (problem_if (has name seen) (duplicate (under place "name"))) e in
      let free : has name seen ≡ false =
        problem-none (has name seen) (duplicate (under place "name")) twice in
      (
        ground (arith, given),
        ground (arith, free),
        (λ n. ground (arith, free, given, has-insert name n seen)),
      )

  unnamed-Checked :
      (require_name : Bool) (name : String) (place : Place) (seen : Set)
      → is_empty name ≡ true
      → IsChecked require_name name seen
          ((if require_name then required (under place "name") ∷ [] else []), seen)
  unfolding Checked IsChecked
  unnamed-Checked true name place seen empty e = absurd (cc)
  unnamed-Checked false name place seen empty e =
      (refl, ground (arith, empty), (λ n. ground (arith, empty)))

  name-Checked :
      (require_name : Bool) (name : String) (place : Place) (seen : Set)
      → IsChecked require_name name seen (service_port_name sets lib require_name name place seen)
  unfolding service_port_name
  name-Checked require_name name place seen = elim (Bool-cases (is_empty name)) [
    | inl empty ↦ rw empty (unnamed-Checked require_name name place seen empty)
    | inr given ↦ rw given (named-Checked require_name name place seen given)
  ]

  -- The ports whose names are free after `p` are free before it, and have other names.
  IsFree-apart :
      (p : ServicePort) (seen seen' : Set)
      → ((n : String) → has n seen' ≡ (not (is_empty p.name) && p.name == n || has n seen))
      → (ps : List ServicePort) → All (IsFree seen') ps
      → All (IsFree seen) ps × All (λ q. clash p q ≡ false) ps
  IsFree-apart p seen seen' after [] free = (tt, tt)
  IsFree-apart p seen seen' after (q ∷ ps) (one, free) =
      let (all_free, apart) = IsFree-apart p seen seen' after ps free in
      (
        (ground (arith, one, after q.name), all_free),
        (ground (arith, one, after q.name, eq_iff p.name q.name), apart),
      )

  -- The names are free, and unique.
  ports-Unique :
      (require_name : Bool) (place : Place) (i : ℕ) (seen : Set) (ps : List ServicePort)
      → service_ports_from sets lib require_name place i seen ps ≡ []
      → All (IsFree seen) ps × Unique require_name ps
  unfolding service_ports_from IsChecked Checked
  ports-Unique require_name place i seen [] e = (tt, tt)
  ports-Unique require_name place i seen (p ∷ ps) e =
      let at = nth (under place "ports") i in
      let r = service_port_name sets lib require_name p.name at seen in
      let others = service_port_problems sets lib at p in
      let tail = service_ports_from sets lib require_name place (i + 1) r.1 ps in
      let (problems, rest) = append-nil r.0 (others ++ tail) e in
      let c = name-Checked require_name p.name at seen problems in
      let later = (append-nil others tail rest).1 in
      let (free, unique) = ports-Unique require_name place (i + 1) r.1 ps later in
      let (all_free, apart) = IsFree-apart p seen r.1 c.2 ps free in
      ((c.1, all_free), (c.0, apart, unique))

  -- When the validator accepts an ExternalProxy, every port of its Service has a name if there are several,
  -- and no two of them have the same name.
  pub validate_external_proxy-Unique :
      (p : ExternalProxy)
      → validate_external_proxy sets lib p ≡ some []
      → Unique (several sets lib p.service.ports) p.service.ports
  unfolding validate_external_proxy validate_service
  validate_external_proxy-Unique p e =
      let (checked, rest) = and_also-fine _ _ e in
      let backends = validate_backends sets lib p.backends (child "spec" ∷ child "backends" ∷ []) in
      let place : Place = child "spec" ∷ child "service" ∷ [] in
      let s = p.service in
      let meta = validate_meta sets lib s.name s.annotations s.labels (under place "metadata") in
      let ports = service_ports_from sets lib (several sets lib s.ports) place 0 (new []) s.ports in
      let needed = required_if_none s.ports (under place "ports") in
      let fine : backends ++ (meta ++ (needed ++ ports)) ≡ [] = cc in
      let all =
        (append-nil needed ports
          (append-nil meta (needed ++ ports) (append-nil backends _ fine).1).1).1 in
      (ports-Unique (several sets lib s.ports) place 0 (new []) s.ports all).1
