-- ===== src/Store/Metadata/Order.antt =====
-- The order in which a map is iterated does not matter where its names differ in lower case.
use mathlib.Core.List.{Perm}
use mathlib.Core.List.{Mem, eq-or-mem_of_mem-cons, mem-cons_self, mem-cons_of_mem, not-mem-nil}
use mathlib.Core.List.Perm
use mathlib.Core.HLevel.{hedberg}
use mathlib.Core.Logic.Or
use artifact_controller.Prelude.{
  String, ◌≡◌, ◌≢◌, ◌==◌, refl, sym, ◌∙◌, arith, eq_iff, inl, inr, Bool-cases, Option-cases, Option,
  none, some, [], ◌∷◌, if◌then◌else◌, All, ap, subst,
}
use artifact_controller.Prelude.Maps.{Map, lookup, insert, lookup-insert}
use artifact_controller.Store.Metadata.{publish}

string_discrete : Discrete String
string_discrete s t = elim (Bool-cases (s == t)) [
  | inl e ↦ yes ((eq_iff s t).0 e)
  | inr n ↦ no (λ e. ground (arith, n, eq_iff s t, e))
]

option_discrete : Discrete (Option String)
option_discrete = hlevel (string_discrete)

abbrev pub or_else : Option String → Option String → Option String
or_else none other = other
or_else (some v) other = some v

module _ (to_lower : String → String) where
  -- The names differ in lower case.
  abbrev pub Fresh : String → Map String → Type 0
  Fresh name l = All (λ (e : String × String). to_lower e.0 ≢ name) l

  abbrev pub Distinct : Map String → Type 0
  Distinct [] = Unit
  Distinct (e ∷ rest) = Fresh (to_lower e.0) rest × Distinct rest

  -- What the entries say of a name in lower case.
  unfoldable pub said : String → Map String → Option String
  said name [] = none
  said name (e ∷ rest) = if to_lower e.0 == name then some e.1 else said name rest

  Fresh-said : (name : String) (l : Map String) → Fresh name l → said name l ≡ none
  unfolding said
  Fresh-said name [] h = refl
  Fresh-said name (e ∷ rest) (h, t) =
      ground (arith, Fresh-said name rest t, eq_iff (to_lower e.0) name)

  lookup-publish :
      (name : String) (l md : Map String)
      → Distinct l
      → lookup name (publish to_lower l md) ≡ or_else (said name l) (lookup name md)
  unfolding publish said
  lookup-publish name [] md h = refl
  lookup-publish name (e ∷ rest) md (f, h) = ground (
    arith,
    lookup-publish name rest (insert (to_lower e.0) e.1 md) h,
    lookup-insert (to_lower e.0) name e.1 md,
    eq_iff (to_lower e.0) name,
    Fresh-said (to_lower e.0) rest f,
  )

  said-of-Mem :
      (e : String × String) (l : Map String)
      → Distinct l
      → Mem e l
      → said (to_lower e.0) l ≡ some e.1
  unfolding said
  said-of-Mem e [] h m = absurd (not-mem-nil m)
  said-of-Mem e (f ∷ l) (n, h) m =
      Or.elim (hedberg option_discrete _ _) (eq-or-mem_of_mem-cons m)
        (λ here. ground (
          arith,
          ap (λ (x : String × String). x.0) here,
          ap (λ (x : String × String). x.1) here,
          eq_iff (to_lower f.0) (to_lower e.0),
        ))
        (λ there.
          let q : said (to_lower e.0) l ≡ some e.1 = said-of-Mem e l h there in
          ground (arith, q, Fresh-said (to_lower f.0) l n, eq_iff (to_lower f.0) (to_lower e.0)))

  Mem-of-said :
      (name v : String) (l : Map String)
      → said name l ≡ some v
      → (e : String × String) × Mem e l × (to_lower e.0 ≡ name) × (e.1 ≡ v)
  unfolding said
  Mem-of-said name v [] h = cc
  Mem-of-said name v (e ∷ l) h = elim (Bool-cases (to_lower e.0 == name)) [
    | inl t ↦ (e, mem-cons_self, (eq_iff (to_lower e.0) name).0 t, ground (arith, t, h))
    | inr n ↦
        (let (f, m, p, q) = Mem-of-said name v l (ground (arith, n, h)) in
          (f, mem-cons_of_mem e m, p, q))
  ]

  Fresh-of-said : (name : String) (l : Map String) → said name l ≡ none → Fresh name l
  unfolding said
  Fresh-of-said name [] h = tt
  Fresh-of-said name (e ∷ rest) h = elim (Bool-cases (to_lower e.0 == name)) [
    | inl t ↦ ground (arith, t, h)
    | inr n ↦ (
      ground (arith, n, eq_iff (to_lower e.0) name),
      Fresh-of-said name rest (ground (arith, n, h)),
    )
  ]

  -- What is published under a name: the value of the entry that is the name in lower case, or what
  -- was there before where no entry is.
  pub data Lowered (name : String) (l md : Map String) (r : Option String) : Type 0 where
    entry :
        (e : String × String) → Mem e l → to_lower e.0 ≡ name → r ≡ some e.1 → Lowered name l md r
    before : Fresh name l → r ≡ lookup name md → Lowered name l md r

  said-Lowered :
      (name : String) (l md : Map String)
      → Lowered name l md (or_else (said name l) (lookup name md))
  said-Lowered name l md = elim (Option-cases (said name l)) [
    | inl n ↦ before (Fresh-of-said name l n) (ground (arith, n))
    | inr (v, q) ↦ (let (e, m, t, u) = Mem-of-said name v l q in entry e m t (ground (arith, q, u)))
  ]

  -- What one order says of a name the other says too.
  said-transfer :
      (name v : String) (l l' : Map String)
      → Perm l l'
      → Distinct l'
      → said name l ≡ some v
      → said name l' ≡ some v
  said-transfer name v l l' p h e =
      let (f, m, n, q) = Mem-of-said name v l e in
      rw (← n, ← q) (said-of-Mem f l' h ((Perm.mem_iff p).0 m))

  said-perm :
      (name : String) (l l' : Map String)
      → Perm l l'
      → Distinct l
      → Distinct l'
      → said name l ≡ said name l'
  said-perm name l l' p h h' = elim (Option-cases (said name l)) [
    | inr (v, e) ↦ e ∙ sym (said-transfer name v l l' p h' e)
    | inl e ↦ elim (Option-cases (said name l')) [
      | inl e' ↦ e ∙ sym e'
      | inr (v, e') ↦
          (let q : said name l ≡ some v = said-transfer name v l' l (Perm.symm p) h e' in
            ground (arith, e, q))
    ]
  ]

  -- Metadata whose names differ in lower case is published in lower case, in whatever order Go
  -- iterates the map: under a name stands the value of the entry that is the name in lower case,
  -- whatever stood there before, and what stood there before where there is no such entry.
  pub publish-Lowered :
      (name : String) (l order md : Map String)
      → Perm l order
      → Distinct l
      → Distinct order
      → Lowered name l md (lookup name (publish to_lower order md))
  publish-Lowered name l order md p h h' =
      let q = lookup-publish name order md h' in
      let e = ap (λ o. or_else o (lookup name md)) (said-perm name l order p h h') in
      subst (λ r. Lowered name l md r) (e ∙ sym q) (said-Lowered name l md)
