-- ===== src/VmConfig/Files.antt =====
-- The boot loader's modules, as vm_config.c searches them.
use hyve_mind.Prelude.{
  ◌==◌, ==_iff, Bool-cases, and_right, and_left, ℕ, ◌≡◌, refl, sym, ap, ap₂, ◌∙◌, ◌≢◌, ◌↔◌, ◌⊎◌,
  inl, inr, true, Option, none, some, List, [], ◌∷◌, ◌++◌, arith,
}
use hyve_mind.Radix.Strings.{same_key}
use hyve_mind.VmConfig.Config.{ok, LimineFile, FileInfo, get_limine_file, info_of}

pub same_key_iff : (a b : List ℕ) → (same_key a b ≡ true) ↔ (a ≡ b)
unfolding same_key
same_key_iff [] [] = (λ e. refl, λ e. refl)
same_key_iff [] (y ∷ ys) = (λ e. absurd (cc), λ e. absurd (cc))
same_key_iff (x ∷ xs) [] = (λ e. absurd (cc), λ e. absurd (cc))
same_key_iff (x ∷ xs) (y ∷ ys) = (
  λ e.
      let same = (==_iff x y).0 (and_left (x == y) (same_key xs ys) e) in
      let rest = (same_key_iff xs ys).0 (and_right (x == y) (same_key xs ys) e) in
      ap₂ (λ (h : ℕ) (t : List ℕ). h ∷ t) same rest,
  λ e. let rest = same_key_iff xs ys in ground (arith, rest),
)

abbrev pub NoneNamed : List LimineFile → List ℕ → Type 0
NoneNamed [] s = Unit {0}
NoneNamed (m ∷ mods) s = (m.string ≢ s) × NoneNamed mods s

-- `f` is the first module with the name `s`.
abbrev pub IsFirstNamed : List LimineFile → List ℕ → LimineFile → Type 0
IsFirstNamed mods s f =
    (before after : List LimineFile) × (mods ≡ before ++ f ∷ after)
    × (f.string ≡ s)
    × NoneNamed before s

-- The address and the size are those of the first module with that name.
abbrev pub Names : List LimineFile → Option (List ℕ) → FileInfo → Type 0
Names mods name info =
    (s : List ℕ) × (f : LimineFile) × (name ≡ some s)
    × IsFirstNamed mods s f
    × (info.addr ≡ f.address)
    × (info.size ≡ f.size)

-- The search returns the first module of that name.
pub get_limine_file-first :
    (s : List ℕ) (f : LimineFile) (before after : List LimineFile)
    → f.string ≡ s
    → NoneNamed before s
    → get_limine_file (before ++ f ∷ after) (some s) ≡ ok (some f)
unfolding get_limine_file
get_limine_file-first s f [] after e h =
    let same = (same_key_iff s f.string).1 (sym e) in rw same refl
get_limine_file-first s f (m ∷ before) after e h = elim (Bool-cases (same_key s m.string)) [
  | inl t ↦ absurd (h.0 (sym ((same_key_iff s m.string).0 t)))
  | inr n ↦ rw n (get_limine_file-first s f before after e h.1)
]

-- The search for a name ends without a module, or with the first of that name.
pub get_limine_file-cases :
    (s : List ℕ) (mods : List LimineFile)
    → ((get_limine_file mods (some s) ≡ ok none) × NoneNamed mods s)
      ⊎ ((f : LimineFile) × (get_limine_file mods (some s) ≡ ok (some f)) × IsFirstNamed mods s f)
unfolding get_limine_file
get_limine_file-cases s [] = inl (refl, tt)
get_limine_file-cases s (m ∷ mods) = elim (Bool-cases (same_key s m.string)) [
  | inl t ↦ inr (m, rw t refl, ([], mods, refl, sym ((same_key_iff s m.string).0 t), tt))
  | inr n ↦
      let differs : m.string ≢ s =
        λ e. absurd (ground (arith, (same_key_iff s m.string).1 (sym e))) in
      elim (get_limine_file-cases s mods) [
        | inl (e, h) ↦ inl (rw n e, (differs, h))
        | inr (f, e, (before, after, split, named, h)) ↦ inr (
          f,
          rw n e,
          (m ∷ before, after, ap (λ (x : List LimineFile). m ∷ x) split, named, (differs, h)),
        )
      ]
]

-- What a request names is what the search returns.
pub Names-found :
    (mods : List LimineFile) (name : Option (List ℕ)) (info : FileInfo)
    → Names mods name info
    → (f : LimineFile) × (get_limine_file mods name ≡ ok (some f)) × Names mods name (info_of f)
Names-found mods name info (s, f, e, (before, after, split, named, h), p, q) = (
  f,
  ap₂ get_limine_file split e ∙ get_limine_file-first s f before after named h,
  (s, f, e, (before, after, split, named, h), refl, refl),
)
