-- ===== src/Controllers/Proxy/Keeping.antt =====
-- What the loops over owned objects make of the objects of one kind, over an API server that does what it
-- answers.
use kertical.Prelude.{
  String, string_Eq, Bool, true, false, not, ◌&&◌, ◌||◌, ◌≡◌, ◌∙◌, refl, Option, none, some, List,
  [], ◌∷◌, ◌==◌, SetPackage, Bool-cases, inl, inr, arith, ==_refl, elem, All,
}
use text.Mathlib.TextEquality.{eq_iff}
use kertical.Expectations.{Action, deletions, Cache, action_Eq, expect}
use kertical.Expectations.Pending.{pending, pending-expect}
use kertical.Controllers.Cluster.{Failure, Reply, answered, refused}
use kertical.Controllers.Proxy.{Object}
use kertical.Controllers.Proxy.Kinds.{
  Ran, gives, stops, crashes, then_run, Kind, World, settle, expecting, delete_expected,
  sync_activated, delete_all,
}

abbrev pub names_of : {S : Type 0} → List (Object S) → List String
names_of [] = []
names_of (o ∷ os) = o.meta.name ∷ names_of os

-- `has`: the names of the objects of the kind in a cluster.
pub record Store {K S : Type 0} (kind : Kind K S) : Type 1 where
  pub has : K → String → Bool
  pub has-create :
      (o : Object S) (k : K) (n : String)
      → (kind.create o k).0 ≡ answered tt
      → has (kind.create o k).1 n ≡ (o.meta.name == n || has k n)
  pub has-update :
      (o : Object S) (k : K) (n : String)
      → (kind.update o k).0 ≡ answered tt
      → has (kind.update o k).1 n ≡ has k n
  pub has-delete :
      (o : Object S) (k : K) (n : String)
      → (kind.delete o k).0 ≡ answered tt
      → has (kind.delete o k).1 n ≡ (not (o.meta.name == n) && has k n)
  pub named :
      (uid : String) (o o' : Object S)
      → kind.set_controller uid o ≡ answered o'
      → o'.meta.name ≡ o.meta.name
  pub sorts :
      (os : List (Object S)) (n : String)
      → elem n (names_of (kind.sort_created os)) ≡ elem n (names_of os)
  pub sorts_all :
      (P : Object S → Type 0) (os : List (Object S)) → All P os → All P (kind.sort_created os)

-- An error that some call of the kind is answered with.
pub data Refuses {K S : Type 0} (kind : Kind K S) : Failure → Type 0 where
  on_create :
      (o : Object S) (k : K) (e : Failure) → (kind.create o k).0 ≡ refused e → Refuses kind e
  on_update :
      (o : Object S) (k : K) (e : Failure) → (kind.update o k).0 ≡ refused e → Refuses kind e
  on_delete :
      (o : Object S) (k : K) (e : Failure) → (kind.delete o k).0 ≡ refused e → Refuses kind e
  on_controller :
      (uid : String) (o : Object S) (e : Failure)
      → kind.set_controller uid o ≡ refused e
      → Refuses kind e

module _ (sets : SetPackage String) {K S : Type 0} (kind : Kind K S) (key : String)
    (store : Store kind) where
  open store use {has, has-create, has-update, has-delete, named}

  -- What holds of the state that a step which succeeds leaves; it fails only with an error of a call.
  abbrev pub After :
      {A : Type 0} → (A → World sets kind key → Type 0) → Ran (World sets kind key) A → Type 0
  After P (gives a w) = P a w
  After P (stops e w) = Refuses kind e
  After P crashes = ⊥

  pub then-After :
      {A B : Type 0} (P : A → World sets kind key → Type 0) (Q : B → World sets kind key → Type 0)
      (r : Ran (World sets kind key) A)
      (next : A → World sets kind key → Ran (World sets kind key) B)
      → After P r
      → ((a : A) (w : World sets kind key) → P a w → After Q (next a w))
      → After Q (then_run r next)
  then-After P Q (gives a w) next h step = step a w h
  then-After P Q (stops e w) next h step = h
  then-After P Q crashes next h step = absurd h

  pub map-After :
      {A : Type 0} (P Q : A → World sets kind key → Type 0) (r : Ran (World sets kind key) A)
      → After P r
      → ((a : A) (w : World sets kind key) → P a w → Q a w)
      → After Q r
  map-After P Q (gives a w) h step = step a w h
  map-After P Q (stops e w) h step = h
  map-After P Q crashes h step = h

  -- The names are gone, with an expectation for each, and nothing else has changed.
  abbrev pub Gone : (String → Bool) → World sets kind key → World sets kind key → Type 0
  Gone gone (cache, k) (cache', k') =
      ((n : String) → has k' n ≡ (not (gone n) && has k n))
      × ((a : Action) (n : String)
          → pending sets cache' key a n ≡ (a == deletions && gone n || pending sets cache key a n))

  deleted-Gone :
      (o : Object S) (cache : Cache sets) (k : K) (r : Reply Unit × K)
      → (r.0 ≡ answered tt → (n : String) → has r.1 n ≡ (not (o.meta.name == n) && has k n))
      → ((e : Failure) → r.0 ≡ refused e → Refuses kind e)
      → After
          (λ _ w'. Gone (λ n. o.meta.name == n) (cache, k) w')
          (settle sets kind key deletions o.meta.name
            (expect sets key deletions o.meta.name cache)
            r)
  unfolding settle
  deleted-Gone o cache k (answered x, k') h fail = (
    h refl,
    (λ a n.
        pending-expect sets cache key key deletions a o.meta.name n ∙ ground (arith, ==_refl key)),
  )
  deleted-Gone o cache k (refused x, k') h fail = fail x refl

  delete_expected-Gone :
      (o : Object S) (w : World sets kind key)
      → After (λ _ w'. Gone (λ n. o.meta.name == n) w w') (delete_expected sets kind key o w)
  unfolding delete_expected expecting
  delete_expected-Gone o (cache, k) =
      deleted-Gone o cache k (kind.delete o k) (λ ok n. has-delete o k n ok)
        (λ e bad. on_delete o k e bad)

  Gone-trans :
      (f g h : String → Bool) (w w' w'' : World sets kind key)
      → ((n : String) → h n ≡ (f n || g n))
      → Gone f w w'
      → Gone g w' w''
      → Gone h w w''
  Gone-trans f g h (c, k) (c', k') (c'', k'') both (first, waits) (second, later) = (
    (λ n. ground (arith, both n, first n, second n)),
    (λ a n. ground (arith, both n, waits a n, later a n)),
  )

  Gone-same :
      (f g : String → Bool) (w w' : World sets kind key)
      → ((n : String) → g n ≡ f n)
      → Gone f w w'
      → Gone g w w'
  Gone-same f g (c, k) (c', k') same (first, waits) =
      ((λ n. ground (arith, same n, first n)), (λ a n. ground (arith, same n, waits a n)))

  pub elem-names :
      (n : String) (o : Object S) (os : List (Object S))
      → elem n (names_of (o ∷ os)) ≡ (o.meta.name == n || elem n (names_of os))
  elem-names n o os = ground (arith, eq_iff n o.meta.name, eq_iff o.meta.name n)

  -- A deletion and what comes after it.
  delete-then :
      {A : Type 0} (P : A → World sets kind key → Type 0) (f h : String → Bool) (o : Object S)
      (next : World sets kind key → Ran (World sets kind key) A) (w : World sets kind key)
      → ((n : String) → h n ≡ (o.meta.name == n || f n))
      → ((w' : World sets kind key) → After (λ a w''. P a w'' × Gone f w' w'') (next w'))
      → After
          (λ a w''. P a w'' × Gone h w w'')
          (then_run (delete_expected sets kind key o w) (λ _ w. next w))
  delete-then P f h o next w both step =
      then-After (λ _ w'. Gone (λ n. o.meta.name == n) w w') (λ a w''. P a w'' × Gone h w w'')
        (delete_expected sets kind key o w) (λ _ w. next w) (delete_expected-Gone o w)
        (λ _ w' g.
          map-After (λ a w''. P a w'' × Gone f w' w'') (λ a w''. P a w'' × Gone h w w'') (next w')
            (step w')
            (λ a w'' r. (r.0, Gone-trans (λ n. o.meta.name == n) f h w w' w'' both g r.1)))

  pub delete_all-Gone :
      (os : List (Object S)) (w : World sets kind key)
      → After (λ _ w'. Unit × Gone (λ n. elem n (names_of os)) w w') (delete_all sets kind key os w)
  unfolding delete_all
  delete_all-Gone [] (cache, k) = (tt, ((λ n. ground arith), (λ a n. ground arith)))
  delete_all-Gone (o ∷ os) w =
      delete-then (λ _ w''. Unit) (λ n. elem n (names_of os)) (λ n. elem n (names_of (o ∷ os))) o
        (delete_all sets kind key os) w (λ n. elem-names n o os) (delete_all-Gone os)

  -- The names of the list but one.
  abbrev pub others : String → List (Object S) → String → Bool
  others name os n = not (name == n) && elem n (names_of os)

  abbrev pub is_some : Option (Object S) → Bool
  is_some none = false
  is_some (some o) = true

  abbrev IsActivated : String → Option (Object S) → List (Object S) → World sets kind key → Type 0
  IsActivated name found os w =
      After
        (λ found' w'.
          (is_some found' ≡ (is_some found || elem name (names_of os)))
          × Gone (others name os) w w')
        (sync_activated sets kind key name found os w)

  sync_activated-same :
      (name : String) (found : Option (Object S)) (o : Object S) (os : List (Object S))
      (w : World sets kind key)
      → (o.meta.name == name) ≡ true
      → sync_activated sets kind key name found (o ∷ os) w
        ≡ sync_activated sets kind key name (some o) os w
  unfolding sync_activated
  sync_activated-same name found o os w same = rw same refl

  sync_activated-apart :
      (name : String) (found : Option (Object S)) (o : Object S) (os : List (Object S))
      (w : World sets kind key)
      → (o.meta.name == name) ≡ false
      → sync_activated sets kind key name found (o ∷ os) w
        ≡ then_run
            (delete_expected sets kind key o w)
            (λ _ w. sync_activated sets kind key name found os w)
  unfolding sync_activated
  sync_activated-apart name found o os w apart = rw apart refl

  IsActivated-cons :
      (name : String) (found : Option (Object S)) (o : Object S) (os : List (Object S))
      (w : World sets kind key)
      → ((found : Option (Object S)) (w : World sets kind key) → IsActivated name found os w)
      → IsActivated name found (o ∷ os) w
  IsActivated-cons name found o os w rest = elim (Bool-cases (o.meta.name == name)) [
    | inl same ↦ rw (sync_activated-same name found o os w same) (
        map-After (λ found' w'. (is_some found' ≡ true) × Gone (others name os) w w')
          (λ found' w'.
            (is_some found' ≡ (is_some found || elem name (names_of (o ∷ os))))
            × Gone (others name (o ∷ os)) w w')
          (sync_activated sets kind key name (some o) os w) (rest (some o) w)
          (λ found' w' r. (
            ground (arith, r.0, elem-names name o os, same),
            Gone-same (others name os) (others name (o ∷ os)) w w'
                (λ n. ground (arith, elem-names n o os, eq_iff o.meta.name name, same)) r.1,
          )))
    | inr apart ↦ rw (sync_activated-apart name found o os w apart) (
        map-After
          (λ found' w'.
            (is_some found' ≡ (is_some found || elem name (names_of os)))
            × Gone (others name (o ∷ os)) w w')
          (λ found' w'.
            (is_some found' ≡ (is_some found || elem name (names_of (o ∷ os))))
            × Gone (others name (o ∷ os)) w w')
          (then_run (delete_expected sets kind key o w)
            (λ _ w. sync_activated sets kind key name found os w))
          (delete-then (λ found' w'. is_some found' ≡ (is_some found || elem name (names_of os)))
            (others name os) (others name (o ∷ os)) o (sync_activated sets kind key name found os) w
            (λ n. ground (
              arith,
              elem-names n o os,
              eq_iff o.meta.name n,
              eq_iff name n,
              eq_iff o.meta.name name,
              apart,
            ))
            (rest found))
          (λ found' w' r. (ground (arith, r.0, elem-names name o os, apart), r.1)))
  ]

  -- When no call of the API server is refused, syncActivatedObject finds an object if there is one of the
  -- name, no object of another name in its list is left, each with an expectation of its deletion, and
  -- every other object and expectation is as it was. An error that it returns is one of a call.
  pub sync_activated-Gone :
      (name : String) (found : Option (Object S)) (os : List (Object S)) (w : World sets kind key)
      → After
          (λ found' w'.
            (is_some found' ≡ (is_some found || elem name (names_of os)))
            × Gone (others name os) w w')
          (sync_activated sets kind key name found os w)
  unfolding sync_activated
  sync_activated-Gone name found [] (cache, k) =
      (ground arith, ((λ n. ground arith), (λ a n. ground arith)))
  sync_activated-Gone name found (o ∷ os) w =
      IsActivated-cons name found o os w (λ found w. sync_activated-Gone name found os w)
