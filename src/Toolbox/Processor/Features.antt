-- ===== src/Toolbox/Processor/Features.antt =====
-- Which feature runs does not depend on the order in which Go ranges over the map of features.
use mathlib.Core.List.{Memᴰ}
use laitos.Base.{
  ◌≡◌, ◌≢◌, refl, sym, ap, ◌∙◌, Bool, true, false, List, [], ◌∷◌, Option, none, some, Bytes, arith,
  has_prefix, Bool-cases, Option-cases, inl, inr, All, ◌||◌,
}
use laitos.Text.Trim.{trim_space}
use laitos.Toolbox.Command.{Command, find_and_remove_prefix}
use laitos.Toolbox.ResultFilter.{LintText}
use mathlib.Core.Option.{some-injective}
use mathlib.Core.Path.{subst}
use laitos.Toolbox.Processor.{Feature, match_feature, run_feature}

abbrev pub Entry : Type 0
Entry = Bytes × Feature

-- The trigger begins the command.
abbrev pub triggers : Bytes → Command → Bool
triggers prefix cmd = has_prefix (trim_space cmd.content) prefix

-- No two triggers begin the same text, unless they are those of one entry.
abbrev PrefixFree : List Entry → Type 0
PrefixFree fs =
    (a b : Entry)
    → Memᴰ a fs
    → Memᴰ b fs
    → (s : Bytes) → has_prefix s a.0 ≡ true
    → has_prefix s b.0 ≡ true
    → a ≡ b

-- What a found entry is: one of the table, whose trigger begins the command.
record IsFound (fs : List Entry) (cmd : Command) (r : Bytes × Feature × Command) : Type 0 where
  listed : Memᴰ (r.0, r.1) fs
  begins : triggers r.0 cmd ≡ true
  stripped : r.2 ≡ (find_and_remove_prefix r.0 cmd).0

find-triggers : (q : Bytes) (cmd : Command) → (find_and_remove_prefix q cmd).1 ≡ triggers q cmd
unfolding find_and_remove_prefix
find-triggers q cmd = ground arith

match_feature-IsFound :
    (fs : List Entry) (cmd : Command) (r : Bytes × Feature × Command)
    → match_feature fs cmd ≡ some r
    → IsFound fs cmd r
unfolding match_feature
match_feature-IsFound [] cmd r e = absurd (cc)
match_feature-IsFound ((q, g) ∷ fs) cmd r e = elim (Bool-cases (find_and_remove_prefix q cmd).1) [
  | inl y ↦
      subst (IsFound ((q, g) ∷ fs) cmd) (some-injective _ _ (rw y at e)) (record {
        listed = Memᴰ.head refl;
        begins = sym (find-triggers q cmd) ∙ y;
        stripped = refl;
      })
  | inr n ↦
      let f = match_feature-IsFound fs cmd r (rw n at e) in
      record { listed = Memᴰ.tail f.listed; begins = f.begins; stripped = f.stripped }
]

match_feature-some :
    (fs : List Entry) (cmd : Command) (a : Entry)
    → Memᴰ a fs
    → triggers a.0 cmd ≡ true
    → match_feature fs cmd ≢ none
unfolding match_feature
match_feature-some [] cmd a m t none_found = elim m [ ]
match_feature-some ((q, g) ∷ fs) cmd a (Memᴰ.head e) t none_found =
    let y : (find_and_remove_prefix q cmd).1 ≡ true = find-triggers q cmd ∙ rw e at t in
    ground (arith, y)
match_feature-some ((q, g) ∷ fs) cmd a (Memᴰ.tail m) t none_found =
    elim (Bool-cases (find_and_remove_prefix q cmd).1) [
      | inl y ↦ ground (arith, y)
      | inr n ↦ match_feature-some fs cmd a m t (rw n at none_found)
    ]

match_feature-agree :
    (fs gs : List Entry) (cmd : Command) (r : Bytes × Feature × Command)
    → PrefixFree gs
    → ((a : Entry) → Memᴰ a fs → Memᴰ a gs)
    → match_feature fs cmd ≡ some r
    → match_feature gs cmd ≡ some r
match_feature-agree fs gs cmd r free inside e =
    let f = match_feature-IsFound fs cmd r e in
    elim (Option-cases (match_feature gs cmd)) [
      | inl n ↦
          absurd (match_feature-some gs cmd (r.0, r.1) (inside (r.0, r.1) f.listed) f.begins n)
      | inr (t, s) ↦
          let g = match_feature-IsFound gs cmd t s in
          let same =
            free (r.0, r.1) (t.0, t.1) (inside (r.0, r.1) f.listed) g.listed
              (trim_space cmd.content) f.begins g.begins in
          s
          ∙ ap some (
              sym (λ i. (
                (same i).0,
                (same i).1,
                (f.stripped
                      ∙ ap (λ (x : Entry). (find_and_remove_prefix x.0 cmd).0) same
                      ∙ sym g.stripped)
                    i,
              )))
    ]

either_prefix :
    (s p q : Bytes)
    → has_prefix s p ≡ true
    → has_prefix s q ≡ true
    → (has_prefix p q || has_prefix q p) ≡ true
unfolding has_prefix
either_prefix s [] q h k = ground arith
either_prefix s (a ∷ p) [] h k = refl
either_prefix [] (a ∷ p) (b ∷ q) h k = absurd (cc)
either_prefix (c ∷ s) (a ∷ p) (b ∷ q) h k = ground (arith, either_prefix s p q)

-- No trigger begins another: the test on all pairs of a table.
abbrev Apart : Entry → Entry → Type 0
Apart a b = (has_prefix a.0 b.0 || has_prefix b.0 a.0) ≡ false

abbrev pub IsFree : List Entry → Type 0
IsFree [] = Unit
IsFree (x ∷ fs) = All (λ y. (has_prefix x.0 y.0 || has_prefix y.0 x.0) ≡ false) fs × IsFree fs

All-of_mem :
    (x a : Entry) (fs : List Entry)
    → All (λ y. (has_prefix x.0 y.0 || has_prefix y.0 x.0) ≡ false) fs
    → Memᴰ a fs
    → Apart x a
All-of_mem x a [] h m = elim m [ ]
All-of_mem x a (y ∷ fs) h (Memᴰ.head e) = rw e h.0
All-of_mem x a (y ∷ fs) h (Memᴰ.tail m) = All-of_mem x a fs h.1 m

IsFree-PrefixFree : (fs : List Entry) → IsFree fs → PrefixFree fs
IsFree-PrefixFree [] h a b m n s p q = elim m [ ]
IsFree-PrefixFree (x ∷ fs) h a b (Memᴰ.head e) (Memᴰ.head f) s p q = e ∙ sym f
IsFree-PrefixFree (x ∷ fs) h a b (Memᴰ.head e) (Memᴰ.tail n) s p q =
    let apart : Apart a b = rw e (All-of_mem x b fs h.0 n) in
    absurd (ground (arith, apart, either_prefix s a.0 b.0 p q))
IsFree-PrefixFree (x ∷ fs) h a b (Memᴰ.tail m) (Memᴰ.head f) s p q =
    let apart : Apart b a = rw f (All-of_mem x a fs h.0 m) in
    absurd (ground (arith, apart, either_prefix s b.0 a.0 q p))
IsFree-PrefixFree (x ∷ fs) h a b (Memᴰ.tail m) (Memᴰ.tail n) s p q =
    IsFree-PrefixFree fs h.1 a b m n s p q

-- Two lists of the same features, in any order, where no trigger of the first begins another, run
-- the same feature on the same command with the same result.
pub run_feature-order :
    (fs gs : List Entry) (override : Option LintText) (cmd : Command)
    → IsFree fs
    → ((a : Entry) → Memᴰ a fs → Memᴰ a gs)
    → ((a : Entry) → Memᴰ a gs → Memᴰ a fs)
    → run_feature fs override cmd ≡ run_feature gs override cmd
unfolding run_feature
run_feature-order fs gs override cmd free to_gs to_fs =
    let free_fs : PrefixFree fs = IsFree-PrefixFree fs free in
    let free_gs : PrefixFree gs = λ a b m n. free_fs a b (to_fs a m) (to_fs b n) in
    let agree : match_feature fs cmd ≡ match_feature gs cmd =
      elim (Option-cases (match_feature fs cmd)) [
        | inr (r, e) ↦ e ∙ sym (match_feature-agree fs gs cmd r free_gs to_gs e)
        | inl n ↦ elim (Option-cases (match_feature gs cmd)) [
          | inl m ↦ n ∙ sym m
          | inr (r, e) ↦ match_feature-agree gs fs cmd r free_fs to_fs e ∙ sym e
        ]
      ] in
    rw (agree, run_feature)
