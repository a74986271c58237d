-- ===== src/Blocks/Layouts.antt =====
-- The layout cache over its calls.
use pureffi.Common.{
  ℕ, zero, suc, ◌≡◌, refl, sym, ap, ◌∙◌, ◌⊎◌, inl, inr, List, [], ◌∷◌, none, some, Bool-cases,
  Option-cases, arith,
}
use pureffi.Go.Types.{GoType}
use mathlib.Core.Path.{subst}
use pureffi.Go.Identity.{same, same_iff}
use pureffi.Go.Outcome.{Outcome, ok, >>=-eq-ok, ok-injective}
use pureffi.Blocks.{Layout, Descriptor, Cache, encode, find, get_layout, filled}

module _ (new_callback : ℕ → GoType → Outcome ℕ) where
  -- The layout of a type: its invoke field is the callback number n, made for the type, the signature of
  -- its descriptor is the encoding of the type, and all else is that of the two templates.
  abbrev pub IsLayout : Layout → Descriptor → ℕ → GoType → Layout → Type 0
  IsLayout lt dt n t l =
      (s : List ℕ) × (i : ℕ) × (encode t ≡ ok s)
      × (new_callback n t ≡ ok i)
      × (l.invoke ≡ i)
      × (l.descriptor.signature ≡ s)
      × (l ≡ record lt { invoke = i; descriptor = record dt { signature = s } })

  -- Each of the n types of the list has the one layout, and each layout the one callback.
  abbrev pub Coherent : Layout → Descriptor → ℕ → List (GoType × Layout) → Type 0
  Coherent lt dt zero [] = Unit {0}
  Coherent lt dt (suc n) [] = ⊥
  Coherent lt dt zero (x ∷ ls) = ⊥
  Coherent lt dt (suc n) ((t, l) ∷ ls) =
      IsLayout lt dt n t l × (find t ls ≡ none) × Coherent lt dt n ls

  abbrev pub IsCoherent : Cache → Type 0
  IsCoherent b = Coherent b.layout_template b.descriptor_template b.callbacks b.layouts

  -- What a call of getLayout that returns has done.
  abbrev pub GotLayout : Cache → GoType → Layout → Cache → Type 0
  GotLayout b typ l b' =
      IsCoherent b'
      × ((n : ℕ) × IsLayout b.layout_template b.descriptor_template n typ l)
      × (get_layout new_callback b' typ ≡ ok (l, b'))
      × ((b' ≡ b) ⊎ ((find typ b.layouts ≡ none) × (b'.callbacks ≡ suc b.callbacks)))

module _ (new_callback : ℕ → GoType → Outcome ℕ) where
  find-IsLayout :
      (lt : Layout) (dt : Descriptor) (typ : GoType) (n : ℕ) (ls : List (GoType × Layout))
      (l : Layout)
      → Coherent new_callback lt dt n ls
      → find typ ls ≡ some l
      → (m : ℕ) × IsLayout new_callback lt dt m typ l
  unfolding find
  find-IsLayout lt dt typ zero [] l c h = absurd (ground arith)
  find-IsLayout lt dt typ zero ((t, k) ∷ ls) l c h = absurd c
  find-IsLayout lt dt typ (suc n) [] l c h = absurd c
  find-IsLayout lt dt typ (suc n) ((t, k) ∷ ls) l (e, f, c) h = elim (Bool-cases (same t typ)) [
    | inl y ↦ let q : k ≡ l = ground arith in (n, rw (sym ((same_iff t typ).0 y), sym q) e)
    | inr y ↦ find-IsLayout lt dt typ n ls l c (rw (find, y) at h)
  ]

  find-new :
      (typ : GoType) (l : Layout) (ls : List (GoType × Layout)) → find typ ((typ, l) ∷ ls) ≡ some l
  unfolding find
  find-new typ l ls = rw ((same_iff typ typ).1 refl) refl

  get_layout-found :
      (b : Cache) (typ : GoType) (l : Layout)
      → find typ b.layouts ≡ some l
      → get_layout new_callback b typ ≡ ok (l, b)
  unfolding get_layout
  get_layout-found b typ l f = rw (get_layout, f) refl

  get_layout-new :
      (b : Cache) (typ : GoType) (l : Layout) (b' : Cache)
      → find typ b.layouts ≡ none
      → get_layout new_callback b typ ≡ ok (l, b')
      → IsLayout new_callback b.layout_template b.descriptor_template b.callbacks typ l
        × (b' ≡ record b { layouts = (typ, l) ∷ b.layouts; callbacks = suc b.callbacks })
  unfolding get_layout
  get_layout-new b typ l b' f h =
      let (s, e, h1) = >>=-eq-ok (encode typ) _ (rw (get_layout, f) at h) in
      let (i, c, h2) = >>=-eq-ok (new_callback b.callbacks typ) _ h1 in
      let q = ok-injective h2 in
      let ql : filled b.layout_template b.descriptor_template s i ≡ l = ap (λ p. p.0) q in
      (
        (
          s,
          i,
          e,
          c,
          ap (λ k. k.invoke) (sym ql),
          ap (λ k. k.descriptor.signature) (sym ql),
          sym ql,
        ),
        sym (rw ql at (ap (λ p. p.1) q)),
      )

  GotLayout-found :
      (b : Cache) (typ : GoType) (l : Layout)
      → find typ b.layouts ≡ some l
      → IsCoherent new_callback b
      → GotLayout new_callback b typ l b
  GotLayout-found b typ l f c = (
    c,
    find-IsLayout b.layout_template b.descriptor_template typ b.callbacks b.layouts l c f,
    get_layout-found b typ l f,
    inl refl,
  )

  GotLayout-new :
      (b : Cache) (typ : GoType) (l : Layout)
      → find typ b.layouts ≡ none
      → IsCoherent new_callback b
      → IsLayout new_callback b.layout_template b.descriptor_template b.callbacks typ l
      → GotLayout new_callback b typ l
          (record b { layouts = (typ, l) ∷ b.layouts; callbacks = suc b.callbacks })
  GotLayout-new b typ l f c i = (
    (i, f, c),
    (b.callbacks, i),
    get_layout-found (record b { layouts = (typ, l) ∷ b.layouts; callbacks = suc b.callbacks }) typ
        l (find-new typ l b.layouts),
    inr (f, refl),
  )

  -- In a cache each of whose types has one layout, with the encoding of the type and a callback made
  -- for it, a call of getLayout that returns gives a layout of the type, and leaves such a cache, in
  -- which the type has this layout: a further call returns it and changes nothing. The call has changed
  -- nothing, or the type had no layout and one callback was made.
  pub get_layout-GotLayout :
      (b : Cache) (typ : GoType) (l : Layout) (b' : Cache)
      → IsCoherent new_callback b
      → get_layout new_callback b typ ≡ ok (l, b')
      → GotLayout new_callback b typ l b'
  get_layout-GotLayout b typ l b' c h = elim (Option-cases (find typ b.layouts)) [
    | inl f ↦
        let (i, q) = get_layout-new b typ l b' f h in
        subst (λ x. GotLayout new_callback b typ l x) (sym q) (GotLayout-new b typ l f c i)
    | inr (k, f) ↦
        let q : ok (k, b) ≡ ok (l, b') = sym (get_layout-found b typ k f) ∙ h in
        subst (λ p. GotLayout new_callback b typ p.0 p.1) (ok-injective q)
          (GotLayout-found b typ k f c)
  ]
