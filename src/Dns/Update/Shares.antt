-- ===== src/Dns/Update/Shares.antt =====
-- Which of the names downloaded the routines look at.
use native.Mathlib.Nat.{div-add-mod}
use laitos.Base.{
  ℕ, zero, suc, ◌+◌, ◌-◌, ◌*◌, ◌%◌, ◌/◌, ◌≡◌, refl, sym, ap, ◌∙◌, Bool, List, [], ◌∷◌, ◌++◌, Bytes,
  arith, ltb, if◌then◌else◌, length, take, drop,
}
use laitos.Dns.Update.{black_list_entries, shares, share_of, num_routines, update_black_list}

take-nil : (n : ℕ) → take {A = Bytes} n [] ≡ []
take-nil zero = refl
take-nil (suc n) = refl

take-add : (a b : ℕ) (xs : List Bytes) → take a xs ++ take b (drop a xs) ≡ take (a + b) xs
take-add zero b xs = ap (λ n. take n xs) (omega arith)
take-add (suc a) b [] = take-nil b ∙ sym (take-nil (suc a + b))
take-add (suc a) b (x ∷ xs) =
    let e : suc a + b ≡ suc (a + b) = omega arith in
    ap (◌∷◌ x) (take-add a b xs) ∙ sym (ap (λ n. take n (x ∷ xs)) e)

drop-nil : (n : ℕ) → drop {A = Bytes} n [] ≡ []
drop-nil zero = refl
drop-nil (suc n) = refl

drop-add : (a b : ℕ) (xs : List Bytes) → drop b (drop a xs) ≡ drop (a + b) xs
drop-add zero b xs = ap (λ n. drop n xs) (omega arith)
drop-add (suc a) b [] = drop-nil b ∙ sym (drop-nil (suc a + b))
drop-add (suc a) b (x ∷ xs) =
    let e : suc a + b ≡ suc (a + b) = omega arith in
    drop-add a b xs ∙ sym (ap (λ n. drop n (x ∷ xs)) e)

shares-take :
    (left i share : ℕ) (names : List Bytes)
    → shares left i share names ≡ take (left * share) (drop (i * share) names)
unfolding shares
shares-take zero i share names =
    let e : 0 * share ≡ 0 = omega arith in sym (ap (λ n. take n (drop (i * share) names)) e)
shares-take (suc left) i share names =
    let next : (i + 1) * share ≡ i * share + share = omega arith in
    let whole : share + left * share ≡ suc left * share = omega arith in
    ap (λ s. share_of i share names ++ s)
      (shares-take left (i + 1) share names
        ∙ ap (take (left * share))
            (ap (λ n. drop n names) next ∙ sym (drop-add (i * share) share names)))
    ∙ take-add share (left * share) (drop (i * share) names)
    ∙ ap (λ n. take n (drop (i * share) names)) whole

-- The names that a download is cut to.
abbrev pub cut : ℕ → List Bytes → List Bytes
cut max names = if ltb max (length names) then take max names else names

-- The new black list has what the first names of the download add to it, in groups of as many as
-- there are routines: of a download whose size the number of routines does not divide, the names
-- of the remainder, up to eleven, are left out.
pub update_black_list-shares :
    (to_lower : Bytes → Bytes) (lookup_ip : Bytes → List Bytes) (windows : Bool) (max_entries : ℕ)
    (downloaded black_list : List Bytes)
    → update_black_list to_lower lookup_ip windows max_entries downloaded black_list
      ≡ black_list_entries to_lower lookup_ip (
          take
            (length (cut max_entries downloaded)
              - length (cut max_entries downloaded) % num_routines windows black_list)
            (cut max_entries downloaded))
unfolding update_black_list
update_black_list-shares to_lower lookup_ip windows max_entries downloaded black_list =
    let names = cut max_entries downloaded in
    let n = num_routines windows black_list in
    let start : 0 * (length names / n) ≡ 0 = omega arith in
    let whole : n * (length names / n) ≡ length names - length names % n =
      omega (arith, div-add-mod (length names) n) in
    ap (black_list_entries to_lower lookup_ip) (
      shares-take n 0 (length names / n) names
      ∙ ap (λ k. take (n * (length names / n)) (drop k names)) start
      ∙ ap (λ k. take k names) whole)
