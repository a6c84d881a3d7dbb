-- ===== src/Graph/Progress.antt =====
-- internal/usecase/dependencygraph/service.go, resolveDependencies: what a step of the resolution does.
use proto_radar.Prelude.{
  Among, String, ◌==◌, ◌≡◌, sym, ap, ◌∙◌, Bool, true, List, [], ◌∷◌, ◌++◌, map, any, All-imp,
  append_nil, append_assoc, mem_text, any-append, Distinct, All, All-append, inl, inr, arith,
}
use proto_radar.Domain.Dependencies.{ModuleDependency, UnresolvedProtoDependency}
use proto_radar.Store.Db.{Db}
use proto_radar.Store.World.{◌>>=◌, done}
use proto_radar.Store.Triples.{Holds, holds_then, holds_imp}
use proto_radar.Graph.Providers.{ProviderIndex}
use proto_radar.Graph.Resolving.{Consumer, Reference, Resolution, Step, edge_key}
use proto_radar.Graph.References.{IsDependencyOf, IsUnresolvedOf, IsCovered, key_of, names}

-- The keys of the dependencies are those seen, each once.
pub record IsKeyed (s : Resolution) : Type 0 where
  pub keyed : (k : String) → mem_text k s.seen ≡ any (λ d. key_of d == k) s.dependencies
  pub distinct : Distinct (map key_of s.dependencies)

-- From one state to a later one: what was added comes from the references, and each of them is
-- accounted for.
pub record IsProgress (consumer : Consumer) (index : ProviderIndex) (refs : List Reference)
    (s t : Resolution) : Type 0 where
  pub dependencies : List ModuleDependency
  pub unresolved : List UnresolvedProtoDependency
  pub more_dependencies : t.dependencies ≡ s.dependencies ++ dependencies
  pub more_unresolved : t.unresolved ≡ s.unresolved ++ unresolved
  pub sound : All (λ d. Among (IsDependencyOf consumer index d) refs) dependencies
  pub sound_unresolved : All (λ u. Among (IsUnresolvedOf consumer index u) refs) unresolved
  pub covered : All (IsCovered consumer index t) refs

Among-left : {A : Type 0} (P : A → Type 0) (xs ys : List A) → Among P xs → Among P (xs ++ ys)
Among-left P [] ys h = absurd h
Among-left P (x ∷ xs) ys (inl h) = inl h
Among-left P (x ∷ xs) ys (inr h) = inr (Among-left P xs ys h)

Among-right : {A : Type 0} (P : A → Type 0) (xs ys : List A) → Among P ys → Among P (xs ++ ys)
Among-right P [] ys h = h
Among-right P (x ∷ xs) ys h = inr (Among-right P xs ys h)

any-more :
    {A : Type 0} (p : A → Bool) (xs ys zs : List A)
    → zs ≡ xs ++ ys
    → any p xs ≡ true
    → any p zs ≡ true
any-more p xs ys zs e h = ground (arith, any-append p xs ys, e, h)

module _ (consumer : Consumer) (index : ProviderIndex) where
  -- What is accounted for stays so.
  IsCovered-more :
      (s t : Resolution) (deps : List ModuleDependency) (us : List UnresolvedProtoDependency)
      (r : Reference)
      → t.dependencies ≡ s.dependencies ++ deps
      → t.unresolved ≡ s.unresolved ++ us
      → IsCovered consumer index s r
      → IsCovered consumer index t r
  IsCovered-more s t deps us r e f (inl h) = inl h
  IsCovered-more s t deps us r e f (inr (inl h)) =
      inr (inl (any-more (names r) s.unresolved us t.unresolved f h))
  IsCovered-more s t deps us r e f (inr (inr (p, m, inl h))) = inr (inr (p, m, inl h))
  IsCovered-more s t deps us r e f (inr (inr (p, m, inr h))) = inr (
      inr (
        p,
        m,
        inr (
            any-more (λ d. key_of d == edge_key consumer p r) s.dependencies deps t.dependencies e
              h),
      ))

  pub IsProgress-then :
      (refs more : List Reference) (s t u : Resolution)
      → IsProgress consumer index refs s t
      → IsProgress consumer index more t u
      → IsProgress consumer index (refs ++ more) s u
  IsProgress-then refs more s t u h k = record {
    dependencies = h.dependencies ++ k.dependencies;
    unresolved = h.unresolved ++ k.unresolved;
    more_dependencies =
        k.more_dependencies
        ∙ ap (λ x. x ++ k.dependencies) h.more_dependencies
        ∙ append_assoc s.dependencies h.dependencies k.dependencies;
    more_unresolved =
        k.more_unresolved
        ∙ ap (λ x. x ++ k.unresolved) h.more_unresolved
        ∙ append_assoc s.unresolved h.unresolved k.unresolved;
    sound =
        All-append _ h.dependencies k.dependencies
          (All-imp _ _ (λ d. Among-left _ refs more) h.dependencies h.sound)
          (All-imp _ _ (λ d. Among-right _ refs more) k.dependencies k.sound);
    sound_unresolved =
        All-append _ h.unresolved k.unresolved
          (All-imp _ _ (λ d. Among-left _ refs more) h.unresolved h.sound_unresolved)
          (All-imp _ _ (λ d. Among-right _ refs more) k.unresolved k.sound_unresolved);
    covered =
        All-append _ refs more
          (All-imp _ _
            (λ r.
              IsCovered-more t u k.dependencies k.unresolved r k.more_dependencies
                k.more_unresolved)
            refs h.covered)
          k.covered;
  }

  pub IsProgress-none :
      (refs : List Reference) (s : Resolution)
      → All (IsCovered consumer index s) refs
      → IsProgress consumer index refs s s
  IsProgress-none refs s h = record {
    dependencies = [];
    unresolved = [];
    more_dependencies = sym (append_nil s.dependencies);
    more_unresolved = sym (append_nil s.unresolved);
    sound = tt;
    sound_unresolved = tt;
    covered = h;
  }

  -- A step that resolves the references, whatever came before, and does not touch the database.
  abbrev pub Resolves : List Reference → Step → Type 0
  Resolves refs f =
      (before : Db) (s : Resolution)
      → IsKeyed s
      → Holds (λ db. db ≡ before) (f s)
          (λ t db. (db ≡ before) × IsProgress consumer index refs s t × IsKeyed t)
          (λ db. db ≡ before)

  pub Resolves-done : Resolves [] (λ s. done s)
  Resolves-done before s k = record { runs = λ w e. (e, IsProgress-none [] s tt, k) }

  pub Resolves-then :
      (refs more : List Reference) (f g : Step)
      → Resolves refs f
      → Resolves more g
      → Resolves (refs ++ more) (λ s. f s >>= g)
  Resolves-then refs more f g h k before s keyed = holds_then (h before s keyed) (λ t. record {
    runs = λ w (e, progress, keyed').
        (holds_imp {m = g t} (λ db same. same)
            (λ u db (e', progress', keyed'').
              (e', IsProgress-then refs more s t u progress progress', keyed''))
            (λ db same. same) (k before t keyed')).runs
          w e;
  })
