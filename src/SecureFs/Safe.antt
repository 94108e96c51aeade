-- ===== src/SecureFs/Safe.antt =====
-- secure_fs.py: a file is overwritten to its end before it is removed.
use hermes_stagewhisper_plug.Prelude.{
  ℕ, zero, suc, ◌+◌, ◌≤◌, ◌<◌, ◌≡◌, ◌≢◌, refl, sym, inl, inr, Bool, true, false, not, some, List,
  [], ◌∷◌, leb, ltb, eqb, if◌then◌else◌, Bool-cases, leb→le, arith,
}
use mathlib.Core.Path.{subst}
use hermes_stagewhisper_plug.SecureFs.{
  wipe_chunk_bytes, max_wipe_bytes, Pwrite, chunk_at, overwrite_from, overwrite_in_chunks, FileInfo,
  Opened, not_found, cannot_open, opened, Unlinked, refused, endless, removed,
  unlink_owned_regular_file, after_wipe,
}

-- Writes that go from one offset to another without a gap, each of at most 64 KiB.
pub data Covers : ℕ → ℕ → List (ℕ × ℕ) → Type 0 where
  covered : (offset : ℕ) → Covers offset offset []
  writes :
      (offset count size : ℕ) (rest : List (ℕ × ℕ))
      → 0 < count
      → count ≤ wipe_chunk_bytes
      → Covers (offset + count) size rest
      → Covers offset size ((offset, count) ∷ rest)

-- A write that writes something, and no more than it is given.
abbrev pub Progresses : Pwrite → Type 0
Progresses pwrite = (offset n : ℕ) → 0 < n → (0 < pwrite offset n) × (pwrite offset n ≤ n)

overwrite_from-Covers :
    (pwrite : Pwrite) (size fuel offset : ℕ)
    → Progresses pwrite
    → offset ≤ size
    → size < offset + fuel
    → (ws : List (ℕ × ℕ)) × (overwrite_from pwrite size fuel offset ≡ some ws)
      × Covers offset size ws
unfolding overwrite_from
overwrite_from-Covers pwrite size zero offset p le enough = absurd (omega (arith, le, enough))
overwrite_from-Covers pwrite size (suc fuel) offset p le enough =
    elim (Bool-cases (leb size offset)) [
      | inl e ↦
          (let same : size ≡ offset = omega (arith, leb→le size offset e, le) in
            (
              [],
              rw (e, overwrite_from) refl,
              subst (λ (n : ℕ). Covers offset n []) (sym same) (covered offset),
            ))
      | inr e ↦
          (let n = chunk_at size offset in
            let more : 0 < n = ground (arith, e) in
            let (some_bytes, few) = p offset n more in
            let count = pwrite offset n in
            let inside : offset + count ≤ size = ground (arith, few, le, e) in
            let small : count ≤ wipe_chunk_bytes = ground (arith, few) in
            let (ws, r, c) =
              overwrite_from-Covers pwrite size fuel (offset + count) p inside
                (omega (arith, enough, some_bytes)) in
            (
              (offset, count) ∷ ws,
              rw (e, overwrite_from, r) refl,
              writes offset count size ws some_bytes small c,
            ))
    ]

not_zero : (n : ℕ) → eqb (suc n) 0 ≡ false
not_zero n = ground arith

overwrite_in_chunks-Covers :
    (pwrite : Pwrite) (size : ℕ)
    → Progresses pwrite
    → (ws : List (ℕ × ℕ)) × (overwrite_in_chunks pwrite size ≡ some ws)
      × (size ≤ max_wipe_bytes → Covers 0 size ws)
unfolding overwrite_in_chunks
overwrite_in_chunks-Covers pwrite zero p = ([], refl, λ _. covered 0)
overwrite_in_chunks-Covers pwrite (suc n) p = elim (Bool-cases (ltb max_wipe_bytes (suc n))) [
  | inl big ↦
      ([], rw (not_zero n, big, overwrite_in_chunks) refl, λ small. ground (arith, big, small))
  | inr e ↦
      (let (ws, r, c) =
          overwrite_from-Covers pwrite (suc n) (suc (suc n)) 0 p (omega arith) (omega arith) in
        (ws, rw (not_zero n, e, overwrite_in_chunks, r) refl, λ _. c))
]

removed-inj : (ws vs : List (ℕ × ℕ)) → removed ws ≡ removed vs → ws ≡ vs
removed-inj ws vs e = cc

-- What is asked of the end of `unlink_owned_regular_file`.
IsSafe : Opened → ℕ → Unlinked → Type 0
IsSafe entry owner u =
    (u ≢ endless)
    × ((ws : List (ℕ × ℕ))
        → u ≡ removed ws
        → (info : FileInfo) × (entry ≡ opened info)
          × (info.regular ≡ true)
          × (info.uid ≡ owner)
          × (info.size ≤ max_wipe_bytes → Covers 0 info.size ws))

refused-IsSafe : (entry : Opened) (owner : ℕ) → IsSafe entry owner refused
unfolding IsSafe
refused-IsSafe entry owner = (λ e. cc, λ ws e. cc)

removed-IsSafe :
    (info : FileInfo) (owner : ℕ) (ws : List (ℕ × ℕ))
    → info.regular ≡ true
    → info.uid ≡ owner
    → (info.size ≤ max_wipe_bytes → Covers 0 info.size ws)
    → IsSafe (opened info) owner (removed ws)
unfolding IsSafe
removed-IsSafe info owner ws regular owned c = (
  λ e. cc,
  λ vs e. (
    info,
    refl,
    regular,
    owned,
    λ small. subst (Covers 0 info.size) (removed-inj ws vs e) (c small),
  ),
)

wiped-IsSafe :
    (raises : Bool) (info : FileInfo) (owner : ℕ) (ws : List (ℕ × ℕ))
    → info.regular ≡ true
    → info.uid ≡ owner
    → (info.size ≤ max_wipe_bytes → Covers 0 info.size ws)
    → IsSafe (opened info) owner (after_wipe raises (some ws))
unfolding IsSafe
wiped-IsSafe true info owner ws regular owned c = (λ e. cc, λ vs e. cc)
wiped-IsSafe false info owner ws regular owned c = removed-IsSafe info owner ws regular owned c

unless-IsSafe :
    (entry : Opened) (owner : ℕ) (b : Bool) (u : Unlinked)
    → (b ≡ false → IsSafe entry owner u)
    → IsSafe entry owner (if b then refused else u)
unless-IsSafe entry owner true u h = refused-IsSafe entry owner
unless-IsSafe entry owner false u h = h refl

-- `unlink_owned_regular_file` comes to an end, if each `pwrite` that does not raise writes
-- something. It removes a file only if that is a regular file of the owner, and before that, if the
-- file has at most 1 MiB, overwrites every byte of it, in order, in writes of at most 64 KiB.
pub unlink_owned_regular_file-safe :
    (pwrite : Pwrite) (raises : Bool) (entry : Opened) (owner : ℕ)
    → Progresses pwrite
    → (unlink_owned_regular_file pwrite raises entry owner ≢ endless)
      × ((ws : List (ℕ × ℕ))
          → unlink_owned_regular_file pwrite raises entry owner ≡ removed ws
          → (info : FileInfo) × (entry ≡ opened info)
            × (info.regular ≡ true)
            × (info.uid ≡ owner)
            × (info.size ≤ max_wipe_bytes → Covers 0 info.size ws))
unfolding unlink_owned_regular_file IsSafe
unlink_owned_regular_file-safe pwrite raises not_found owner p = (λ e. cc, λ ws e. cc)
unlink_owned_regular_file-safe pwrite raises cannot_open owner p = (λ e. cc, λ ws e. cc)
unlink_owned_regular_file-safe pwrite raises (opened info) owner p =
    let (ws, r, c) = overwrite_in_chunks-Covers pwrite info.size p in
    unless-IsSafe (opened info) owner (not info.regular) _ (λ regular.
      unless-IsSafe (opened info) owner (not (eqb info.uid owner)) _ (λ owned.
        subst (λ o. IsSafe (opened info) owner (after_wipe raises o)) (sym r)
          (wiped-IsSafe raises info owner ws (ground (arith, regular)) (ground (arith, owned)) c)))
