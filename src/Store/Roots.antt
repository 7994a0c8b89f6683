-- ===== src/Store/Roots.antt =====
-- Earlier roots of the position tree stay known (server/src/shared/state/store.ts).
use pnlx.Base.{
  ◌^◌, ◌≡◌, ℕ, refl, sym, true, false, List, [], ◌∷◌, ◌++◌, Bool-cases, inl, inr, length, ltb,
  arith,
}
use pnlx.Base.Lists.{length-append}
use pnlx.Base.Text.{Hex, ◌===◌, ===_refl}
use pnlx.Base.Result.{ok, >>=-eq-ok, map_result, throw_if, throw_if-eq-ok}
use pnlx.Crypto.Primitives.{Primitives}
use pnlx.Crypto.FieldMerkle.{
  to_field, empty_leaf, root_from, position_merkle_depth, position_merkle_root,
}
use pnlx.Crypto.Field.{field_hex}
use pnlx.Base.Entries.{snoc, append_nil}
use pnlx.Store.State.{Store}
use pnlx.Store.Tree.{root_occurs, has_position_membership_root}

abbrev HasRoot : Primitives → List Hex → Type 0
HasRoot p commitments =
    (r : Hex) × (position_merkle_root p commitments position_merkle_depth ≡ ok r)

map_result-append :
    (xs ys : List Hex) {zs : List ℕ}
    → map_result to_field (xs ++ ys) ≡ ok zs
    → (us : List ℕ) × (map_result to_field xs ≡ ok us)
map_result-append [] ys h = ([], refl)
map_result-append (x ∷ xs) ys h =
    let (y, ye, h1) = >>=-eq-ok (to_field x) _ h in
    let (rest, re, h2) = >>=-eq-ok (map_result to_field (xs ++ ys)) _ h1 in
    let (us, e) = map_result-append xs ys re in (y ∷ us, rw (ye, e) refl)

-- A tree over fewer of the leaves has a root.
shorter-HasRoot : (p : Primitives) (xs ys : List Hex) → HasRoot p (xs ++ ys) → HasRoot p xs
unfolding position_merkle_root
shorter-HasRoot p xs ys (r, h) =
    let (u, ue, h1) =
      >>=-eq-ok
        (throw_if (ltb (2 ^ position_merkle_depth) (length (xs ++ ys)))
          "position merkle tree is full")
        _ h in
    let (zs, ze, h2) = >>=-eq-ok (map_result to_field (xs ++ ys)) _ h1 in
    let (us, e) = map_result-append xs ys ze in
    let fits =
      throw_if-eq-ok (ltb (2 ^ position_merkle_depth) (length (xs ++ ys)))
        "position merkle tree is full" ue in
    let fewer : ltb (2 ^ position_merkle_depth) (length xs) ≡ false =
      ground (arith, fits, length-append xs ys) in
    (field_hex (root_from p position_merkle_depth empty_leaf us), rw (fewer, e) refl)

module _ (p : Primitives) (root : Hex) where
  root_here :
      (before after : List Hex)
      → position_merkle_root p before position_merkle_depth ≡ ok root
      → root_occurs p root before after ≡ ok true
  unfolding root_occurs
  root_here before [] h = rw (h, ===_refl root) refl
  root_here before (c ∷ after) h = rw (h, ===_refl root) refl

  root_later :
      (before xs after : List Hex)
      → position_merkle_root p (before ++ xs) position_merkle_depth ≡ ok root
      → root_occurs p root before (xs ++ after) ≡ ok true
  unfolding root_occurs
  root_later before [] after h = root_here before after (rw (sym (append_nil before)) h)
  root_later before (x ∷ xs) after h =
      let (found, e) = shorter-HasRoot p before (x ∷ xs) (root, h) in
      let later = root_later (before ++ x ∷ []) xs after (rw (snoc before xs x) h) in
      elim (Bool-cases (found === root)) [
        | inl same ↦ rw (e, same) refl
        | inr other ↦ rw (e, other) later
      ]

-- Once the position tree had a root, it is known to the store however many commitments have joined
-- since: a proof made against an earlier root is not refused for it.
pub earlier_root_known :
    (p : Primitives) (s : Store) (earlier later : List Hex) (root : Hex)
    → s.position_commitments ≡ earlier ++ later
    → position_merkle_root p earlier position_merkle_depth ≡ ok root
    → has_position_membership_root p root s ≡ ok true
unfolding has_position_membership_root
earlier_root_known p s earlier later root joined h =
    rw joined (root_later p root [] earlier later h)
