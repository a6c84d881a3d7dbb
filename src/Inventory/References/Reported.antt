-- ===== src/Inventory/References/Reported.antt =====
-- reportedModuleReferences: which references a report has.
use Prim.Native.String.{◌++◌ as append}
use proto_radar.Prelude.{
  String, ◌==◌, ◌≡◌, ◌≢◌, refl, sym, ap, ap₂, subst, ◌∙◌, ◌⊎◌, All, eq_refl, Bool, true, false, not,
  ◌&&◌, List, [], ◌∷◌, any, mem_text, Distinct, map, eq_iff, all_codes, Bool-cases, inl, inr, arith,
  trim_space,
}
use proto_radar.Prelude.Separators.{separated, append_separator_inj}
use proto_radar.Domain.Errors.{Result, ok, err, Result-cases, ◌>>=◌}
use proto_radar.Domain.Names.{new_module_name, new_version, is_module_name_char}
use proto_radar.Domain.Names.Acceptance.{new_module_name_sound, new_version_sound}
use proto_radar.Inventory.References.{
  ReportedModuleInput, ReportedModuleReference, reference_key, references_from,
  reported_module_references, some_references,
}

append_nul_inj :
    (a b x y : String)
    → all_codes is_module_name_char a ≡ true
    → all_codes is_module_name_char b ≡ true
    → append a (append "\0" x) ≡ append b (append "\0" y)
    → (a ≡ b) × (x ≡ y)
unfolding is_module_name_char
append_nul_inj a b x y h k e =
    append_separator_inj is_module_name_char _ a b x y refl h k
      (ap (append a) (sym (separated _ x)) ∙ (e ∙ ap (append b) (separated _ y)))

abbrev pub IsAccepted : ReportedModuleReference → Type 0
IsAccepted r = all_codes is_module_name_char r.module_name ≡ true

abbrev pub same_reference : ReportedModuleReference → ReportedModuleReference → Bool
same_reference a b = a.module_name == b.module_name && a.version == b.version

-- The key of a reference stands for its name and its version.
reference_key_eq :
    (a b : ReportedModuleReference)
    → IsAccepted a
    → IsAccepted b
    → (reference_key a == reference_key b) ≡ same_reference a b
unfolding reference_key
reference_key_eq a b h k = elim (Bool-cases (reference_key a == reference_key b)) [
  | inl e ↦
      let (name, version) =
        append_nul_inj a.module_name b.module_name a.version b.version h k
          (ground (arith, e, eq_iff (reference_key a) (reference_key b))) in
      ground
        (arith, e, name, version, eq_iff a.module_name b.module_name, eq_iff a.version b.version)
  | inr e ↦ ground (
    arith,
    e,
    eq_iff (reference_key a) (reference_key b),
    eq_iff a.module_name b.module_name,
    eq_iff a.version b.version,
  )
]

abbrev pub named_by : ReportedModuleReference → ReportedModuleInput → Bool
named_by r input =
    trim_space input.module_name == r.module_name && trim_space input.version == r.version

abbrev read : ReportedModuleInput → ReportedModuleReference
read input = record {
  module_name = trim_space input.module_name;
  version = trim_space input.version;
}

abbrev keys : List ReportedModuleReference → List String
keys = map reference_key

-- What the loop makes of a reference and the rest.
abbrev Turn :
    List String
    → List ReportedModuleInput
    → List ReportedModuleReference
    → ReportedModuleReference
    → Type 0
Turn seen rest refs r =
    ((mem_text (reference_key r) seen ≡ true) × (references_from seen rest ≡ ok refs))
    ⊎ ((mem_text (reference_key r) seen ≡ false)
        × ((more : List ReportedModuleReference) × (references_from (reference_key r ∷ seen) rest
              ≡ ok more)
            × (refs ≡ r ∷ more)))

turn :
    (seen : List String) (rest : List ReportedModuleInput) (refs : List ReportedModuleReference)
    (r : ReportedModuleReference)
    → elim (mem_text (reference_key r) seen) as (λ b. Result (List ReportedModuleReference)) [
      | true ↦ references_from seen rest
      | false ↦ references_from (reference_key r ∷ seen) rest >>= λ more. ok (r ∷ more)
    ]
      ≡ ok refs
    → Turn seen rest refs r
turn seen rest refs r h = elim (Bool-cases (mem_text (reference_key r) seen)) [
  | inl old ↦ inl (old, ground (arith, old))
  | inr new ↦ elim (Result-cases (references_from (reference_key r ∷ seen) rest)) [
    | inr bad ↦ ground (arith, new, bad.1)
    | inl (more, e) ↦ inr (new, (more, e, ground (arith, new, e)))
  ]
]

-- The loop at an input that it accepts.
references_step :
    (seen : List String) (input : ReportedModuleInput) (rest : List ReportedModuleInput)
    (refs : List ReportedModuleReference)
    → references_from seen (input ∷ rest) ≡ ok refs
    → IsAccepted (read input) × Turn seen rest refs (read input)
unfolding references_from
references_step seen input rest refs h = elim (Result-cases (new_module_name input.module_name)) [
  | inr bad ↦ ground (arith, bad.1)
  | inl (name, e) ↦ elim (Result-cases (new_version input.version)) [
    | inr bad ↦ ground (arith, e, bad.1)
    | inl (version, f) ↦
        let s = new_module_name_sound input.module_name name e in
        let t = new_version_sound input.version version f in
        subst (λ r. IsAccepted r × Turn seen rest refs r)
          (ap₂ (λ n v. record { module_name = n; version = v }) s.0 t.0)
          (
            s.2,
            turn seen rest refs (record { module_name = name; version = version })
                (ground (arith, h, e, f)),
          )
  ]
]

-- The keys of the references are those of the inputs that were not seen before, each once.
record AreReported (seen : List String) (inputs : List ReportedModuleInput)
    (refs : List ReportedModuleReference) : Type 0 where
  accepted : All IsAccepted refs
  inputs_accepted : All (λ i. IsAccepted (read i)) inputs
  distinct : Distinct (keys refs)
  keys_are :
      (k : String)
      → mem_text k (keys refs)
        ≡ (any (λ i. reference_key (read i) == k) inputs && not (mem_text k seen))

references_from-AreReported :
    (seen : List String) (inputs : List ReportedModuleInput) (refs : List ReportedModuleReference)
    → references_from seen inputs ≡ ok refs
    → AreReported seen inputs refs
references_from-AreReported seen [] refs h =
    let e : [] ≡ refs = unfold references_from in ground arith in
    subst (AreReported seen []) e
      (record { accepted = tt; inputs_accepted = tt; distinct = tt; keys_are = λ k. refl })
references_from-AreReported seen (input ∷ rest) refs h =
    elim (references_step seen input rest refs h).1 [
      | inl (old, e) ↦
          let a = references_from-AreReported seen rest refs e in
          record {
            accepted = a.accepted;
            inputs_accepted = ((references_step seen input rest refs h).0, a.inputs_accepted);
            distinct = a.distinct;
            keys_are =
                λ k. a.keys_are k ∙ ground (arith, old, eq_iff (reference_key (read input)) k);
          }
      | inr (new, (more, e, same)) ↦
          let a = references_from-AreReported (reference_key (read input) ∷ seen) rest more e in
          record {
            accepted = rw same ((references_step seen input rest refs h).0, a.accepted);
            inputs_accepted = ((references_step seen input rest refs h).0, a.inputs_accepted);
            distinct = rw same (
              ground (
                arith,
                a.keys_are (reference_key (read input)),
                eq_refl (reference_key (read input)),
              ),
              a.distinct,
            );
            keys_are = λ k.
                rw same (ground (arith, a.keys_are k, new, eq_iff (reference_key (read input)) k));
          }
    ]

-- No two references of the list have the same name and version.
abbrev pub DistinctReferences : List ReportedModuleReference → Type 0
DistinctReferences [] = Unit
DistinctReferences (r ∷ rest) = (any (same_reference r) rest ≡ false) × DistinctReferences rest

any_key :
    (r : ReportedModuleReference) (rs : List ReportedModuleReference)
    → IsAccepted r
    → All IsAccepted rs
    → mem_text (reference_key r) (keys rs) ≡ any (same_reference r) rs
any_key r [] h k = refl
any_key r (x ∷ rs) h k = ground (
  arith,
  any_key r rs h k.1,
  reference_key_eq r x h k.0,
  eq_iff (reference_key r) (reference_key x),
  eq_iff (reference_key x) (reference_key r),
)

distinct_references :
    (rs : List ReportedModuleReference)
    → All IsAccepted rs
    → Distinct (keys rs)
    → DistinctReferences rs
distinct_references [] h d = tt
distinct_references (r ∷ rs) h d =
    (sym (any_key r rs h.0 h.1) ∙ d.0, distinct_references rs h.1 d.1)

any_input :
    (r : ReportedModuleReference) (inputs : List ReportedModuleInput)
    → IsAccepted r
    → All (λ (i : ReportedModuleInput). IsAccepted (read i)) inputs
    → any (λ i. reference_key (read i) == reference_key r) inputs ≡ any (named_by r) inputs
any_input r [] h k = refl
any_input r (x ∷ rs) h k = ground (arith, any_input r rs h k.1, reference_key_eq (read x) r k.0 h)

some_ok :
    (outcome : Result (List ReportedModuleReference)) (refs : List ReportedModuleReference)
    → (outcome >>= some_references) ≡ ok refs
    → (outcome ≡ ok refs) × (refs ≢ [])
some_ok (err e) refs h = cc
some_ok (ok []) refs h = cc
some_ok (ok (r ∷ rs)) refs h = (h, λ e. absurd (ground (arith, h, e)))

-- If the references of a report are accepted, there is at least one, no two are the same, and a valid
-- name with a version is among them exactly if some input names it, spaces around both aside.
pub reported_module_references_exact :
    (inputs : List ReportedModuleInput) (refs : List ReportedModuleReference)
    → reported_module_references inputs ≡ ok refs
    → (refs ≢ [])
      × DistinctReferences refs
      × ((r : ReportedModuleReference)
          → IsAccepted r
          → any (same_reference r) refs ≡ any (named_by r) inputs)
reported_module_references_exact [] refs h = unfold reported_module_references in ground arith
reported_module_references_exact (input ∷ rest) refs h =
    let (e, some_ref) =
      some_ok (references_from [] (input ∷ rest)) refs (unfold reported_module_references in h) in
    let a = references_from-AreReported [] (input ∷ rest) refs e in
    (
      some_ref,
      distinct_references refs a.accepted a.distinct,
      λ r k.
          sym (any_key r refs k a.accepted)
          ∙ (a.keys_are (reference_key r)
              ∙ rw (any_input r (input ∷ rest) k a.inputs_accepted) (ground arith)),
    )
