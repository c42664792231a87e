-- ===== src/Releases/Newest.antt =====
-- The release that is found is the newest one.
use valv.Base.{
  ◌≡◌, refl, sym, ◌∙◌, String, string_eq, nat_eq, ℕ, zero, suc, ltb, length, true, false, List, [],
  ◌∷◌, ◌++◌, Option, none, some, All, arith, inl, inr, ◌⊎◌, Bool-cases, if◌then◌else◌,
}
use mathlib.Core.Path.{subst}
use valv.Base.Members.{In, here, there}
use valv.Base.Result.{Result, ok, err, Result-cases, ok-injective}
use valv.Errors.{Error}
use valv.Http.{Reply}
use valv.Storage.Batch.{read_reply}
use valv.Releases.{
  Component, tag_prefix, Version, is_greater, Candidate, candidate, better, scan_page, read_pages,
  version_of, resolve_latest_version_from, releases_page_size, max_releases_pages,
}

greater_refl : (a : Version) → is_greater a a ≡ false
unfolding is_greater
greater_refl a = ground arith

-- A version that is not above a second one is not above one that the second is not above.
not_greater_trans :
    (a b c : Version) → is_greater a b ≡ false → is_greater b c ≡ false → is_greater a c ≡ false
unfolding is_greater
not_greater_trans a b c h k = ground (arith, h, k)

not_greater_flip : (a b : Version) → is_greater a b ≡ true → is_greater b a ≡ false
unfolding is_greater
not_greater_flip a b h = ground (arith, h)

-- No candidate is newer than `c`.
abbrev pub NoneAbove : Candidate → Option Candidate → Type 0
NoneAbove c none = Unit
NoneAbove c (some d) = is_greater d.0 c.0 ≡ false

NoneAbove-weaken :
    (c d : Candidate) (o : Option Candidate)
    → is_greater c.0 d.0 ≡ false
    → NoneAbove c o
    → NoneAbove d o
NoneAbove-weaken c d none h k = tt
NoneAbove-weaken c d (some x) h k = not_greater_trans x.0 c.0 d.0 k h

-- What is kept of two is one of them, and neither is above it.
abbrev Kept : Option Candidate → Option Candidate → Option Candidate → Type 0
Kept a b none = (a ≡ none) × (b ≡ none)
Kept a b (some c) = ((a ≡ some c) ⊎ (b ≡ some c)) × NoneAbove c a × NoneAbove c b

better-Kept : (a b : Option Candidate) → Kept a b (better a b)
unfolding better
better-Kept none none = (refl, refl)
better-Kept (some a) none = (inl refl, greater_refl a.0, tt)
better-Kept none (some b) = (inr refl, tt, greater_refl b.0)
better-Kept (some a) (some b) = elim (Bool-cases (is_greater b.0 a.0)) [
  | inl q ↦ rw q (inr refl, not_greater_flip b.0 a.0 q, greater_refl b.0)
  | inr q ↦ rw q (inl refl, greater_refl a.0, q)
]

module _ (prefix : String) where
  -- The newest of a list of tags and of what was best before.
  abbrev pub Newest : Option Candidate → List String → Candidate → Type 0
  Newest best tag_names c =
      ((best ≡ some c) ⊎ ((t : String) × In t tag_names × (candidate prefix t ≡ some c)))
      × NoneAbove c best
      × All (λ t. NoneAbove c (candidate prefix t)) tag_names

  scan-Newest :
      (best : Option Candidate) (l : List String) (c : Candidate)
      → scan_page prefix best l ≡ some c
      → Newest best l c
  unfolding scan_page
  scan-Newest best [] c h = (inl h, subst (NoneAbove c) (sym h) (greater_refl c.0), tt)
  scan-Newest best (t ∷ ts) c h =
      let rest = scan-Newest (better best (candidate prefix t)) ts c h in
      joined (better best (candidate prefix t)) (better-Kept best (candidate prefix t)) rest
    where
      later :
          (x : String) × In x ts × (candidate prefix x ≡ some c)
          → (x : String) × In x (t ∷ ts) × (candidate prefix x ≡ some c)
      later (x, i, e) = (x, there t ts i, e)

      from_none :
          (◌≡◌ {A = Option Candidate} none (some c))
            ⊎ ((x : String) × In x ts × (candidate prefix x ≡ some c))
          → (x : String) × In x ts × (candidate prefix x ≡ some c)
      from_none (inl e) = ground (arith, e)
      from_none (inr x) = x

      origin :
          (b : Candidate)
          → (best ≡ some b) ⊎ (candidate prefix t ≡ some b)
          → (◌≡◌ {A = Option Candidate} (some b) (some c))
            ⊎ ((x : String) × In x ts × (candidate prefix x ≡ some c))
          → (best ≡ some c) ⊎ ((x : String) × In x (t ∷ ts) × (candidate prefix x ≡ some c))
      origin b (inl k) (inl e) = inl (k ∙ e)
      origin b (inr k) (inl e) = inr (t, here ts, k ∙ e)
      origin b k (inr x) = inr (later x)

      joined :
          (kept : Option Candidate)
          → Kept best (candidate prefix t) kept
          → Newest kept ts c
          → Newest best (t ∷ ts) c
      joined none k r = (
        inr (later (from_none r.0)),
        subst (NoneAbove c) (sym k.0) tt,
        (subst (NoneAbove c) (sym k.1) tt, r.2),
      )
      joined (some b) k r = (
        origin b k.0 r.0,
        NoneAbove-weaken b c best r.1 k.1,
        (NoneAbove-weaken b c (candidate prefix t) r.1 k.2, r.2),
      )

  scan_page-append :
      (best : Option Candidate) (xs ys : List String)
      → scan_page prefix best (xs ++ ys) ≡ scan_page prefix (scan_page prefix best xs) ys
  unfolding scan_page
  scan_page-append best [] ys = refl
  scan_page-append best (x ∷ xs) ys = scan_page-append (better best (candidate prefix x)) xs ys

  module _ (releases : (page : ℕ) → Reply (List String)) where
    abbrev page_tags : (rest : List String) → Result Error (List String) → List String
    page_tags rest (err e) = []
    page_tags rest (ok tag_names) =
        if ltb (length tag_names) releases_page_size then tag_names else tag_names ++ rest

    -- The tags of the pages that are read: up to the first page that is not full.
    unfoldable pub tags_read : (left page : ℕ) → List String
    tags_read zero page = []
    tags_read (suc left) page = page_tags (tags_read left (suc page)) (read_reply (releases page))

    read_pages-scan :
        (left page : ℕ) (best : Option Candidate) (version : String)
        → read_pages releases prefix left page best ≡ ok version
        → version_of prefix (scan_page prefix best (tags_read left page)) ≡ ok version
    unfolding read_pages tags_read scan_page
    read_pages-scan zero page best version h = h
    read_pages-scan (suc left) page best version h =
        elim (Result-cases (read_reply (releases page))) [
          | inl (e, q) ↦ ground (arith, rw q at h)
          | inr (tags, q) ↦
              let h' = rw q at h in
              elim (Bool-cases (ltb (length tags) releases_page_size)) [
                | inl l ↦ rw q (rw l (rw l at h'))
                | inr l ↦ rw q (
                    rw l (
                      rw (scan_page-append best tags (tags_read left (suc page))) (
                        read_pages-scan left (suc page) (scan_page prefix best tags) version
                          (rw l at h'))))
              ]
        ]

found-version :
    (prefix : String) (best : Option Candidate) (version : String)
    → version_of prefix best ≡ ok version
    → (c : Candidate) × (best ≡ some c) × (c.1 ≡ version)
found-version prefix none version h = ground (arith, h)
found-version prefix (some c) version h = (c, refl, ok-injective c.1 version h)

-- Without a pin, the version that is found is that of a release on the pages that are read, and no
-- release on them has a greater version.
pub latest-Newest :
    (releases : (page : ℕ) → Reply (List String)) (component : Component) (version : String)
    → resolve_latest_version_from releases component none ≡ ok version
    → (c : Candidate) × (c.1 ≡ version)
      × Newest
          (tag_prefix component)
          none
          (tags_read (tag_prefix component) releases max_releases_pages 1)
          c
unfolding resolve_latest_version_from
latest-Newest releases component version h =
    let prefix = tag_prefix component in
    let tags = tags_read prefix releases max_releases_pages 1 in
    let scanned = read_pages-scan prefix releases max_releases_pages 1 none version h in
    let found = found-version prefix (scan_page prefix none tags) version scanned in
    (found.0, found.2, scan-Newest prefix none tags found.0 found.1)
