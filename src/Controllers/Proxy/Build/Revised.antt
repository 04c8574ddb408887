-- ===== src/Controllers/Proxy/Build/Revised.antt =====
-- Every EndpointSlice that is built carries the revision.
use kertical.Prelude.{ℕ, ◌+◌, String, ◌≡◌, refl, Option, List, [], ◌∷◌, ◌++◌, All}
use kertical.Controllers.Proxy.{
  StringMap, Object, AddressType, SliceSpec, ipv4, ipv6, Backend, ExternalProxy,
}
use kertical.Controllers.Proxy.Build.{
  annotated, inject_revision, typed_slice, slices_from, label_slices, new_endpoint_slices,
  new_endpoint_slice_from_backend,
}

module _ (print : ℕ → String) (parse4 parse6 : String → Option String)
    (slice_name : (service : String) → (index : ℕ) → (suffix : String) → String)
    (p : ExternalProxy) where
  -- The annotations are some map with the revision put into it.
  abbrev pub IsRevised : Object SliceSpec → Type 0
  IsRevised d =
      (m : StringMap) × (d.meta.annotations
        ≡ annotated print parse4 parse6 slice_name (print p.generation) m)

  append-All :
      (xs ys : List (Object SliceSpec))
      → All IsRevised xs
      → All IsRevised ys
      → All IsRevised (xs ++ ys)
  append-All [] ys left right = right
  append-All (x ∷ xs) ys (one, left) right = (one, append-All xs ys left right)

  one-All :
      {A : Type 0} (es : List A) (d : Object SliceSpec)
      → IsRevised d
      → All IsRevised (elim es [ [] ↦ [] | e ∷ rest ↦ d ∷ [] ])
  one-All [] d revised = tt
  one-All (e ∷ es) d revised = (revised, tt)

  typed-IsRevised :
      (type : AddressType) (o : Object SliceSpec)
      → All IsRevised (typed_slice print parse4 parse6 slice_name p type o)
  unfolding typed_slice inject_revision
  typed-IsRevised type o =
      one-All o.spec.endpoints
        (inject_revision print parse4 parse6 slice_name p
          (record o { spec = record o.spec { address_type = type } }))
        (o.meta.annotations, refl)

  slices-IsRevised :
      (index : ℕ) (bs : List Backend)
      → All IsRevised (slices_from print parse4 parse6 slice_name p index bs)
  unfolding slices_from
  slices-IsRevised index [] = tt
  slices-IsRevised index (b ∷ bs) =
      let v4 =
        new_endpoint_slice_from_backend print parse4 parse6 slice_name
          (slice_name p.service.name index "v4") b parse4 in
      let v6 =
        new_endpoint_slice_from_backend print parse4 parse6 slice_name
          (slice_name p.service.name index "v6") b parse6 in
      let rest = slices_from print parse4 parse6 slice_name p (index + 1) bs in
      append-All (typed_slice print parse4 parse6 slice_name p ipv4 v4)
        (typed_slice print parse4 parse6 slice_name p ipv6 v6 ++ rest) (typed-IsRevised ipv4 v4)
        (append-All (typed_slice print parse4 parse6 slice_name p ipv6 v6) rest
          (typed-IsRevised ipv6 v6) (slices-IsRevised (index + 1) bs))

  label-IsRevised :
      (controller : String) (os : List (Object SliceSpec))
      → All IsRevised os
      → All IsRevised (label_slices print parse4 parse6 slice_name controller p os)
  unfolding label_slices
  label-IsRevised controller [] all = tt
  label-IsRevised controller (o ∷ os) (one, all) = (one, label-IsRevised controller os all)

  pub new_endpoint_slices-IsRevised :
      (controller : String)
      → All IsRevised (new_endpoint_slices print parse4 parse6 slice_name controller p)
  unfolding new_endpoint_slices
  new_endpoint_slices-IsRevised controller =
      label-IsRevised controller (slices_from print parse4 parse6 slice_name p 0 p.backends)
        (slices-IsRevised 0 p.backends)
