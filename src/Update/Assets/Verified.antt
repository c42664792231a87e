-- ===== src/Update/Assets/Verified.antt =====
-- Only verified tarballs are unpacked.
use valv.Base.{
  ◌≡◌, ◌⊎◌, refl, string_eq, String, ◌<>◌, true, List, [], ◌∷◌, some, arith, inl, inr, Bool-cases,
  Option-cases,
}
use valv.Base.Members.{In, here, there}
use valv.Base.Result.{ok, Result-cases}
use valv.Base.Text.{lines, split_whitespace}
use valv.Releases.{Component}
use valv.Storage.Chunking.{Bytes}
use valv.Update.Assets.{
  hash_of, checksum_in, checksum_for_asset, Tools, verify_tarball_checksum, unpack_verified,
  stage_component, component_asset_name, component_release_base,
}

-- A line whose first word is the hash, and whose second one is the asset, with a star or without.
abbrev pub NamesHash : (hash asset : String) → (line : String) → Type 0
NamesHash hash asset line =
    (name : String) × (rest : List String) × (split_whitespace line ≡ hash ∷ name ∷ rest)
    × ((name ≡ asset) ⊎ (name ≡ "*" <> asset))

abbrev pub ListsHash : (hash asset sha256sums : String) → Type 0
ListsHash hash asset sha256sums =
    (line : String) × In line (lines sha256sums) × NamesHash hash asset line

hash_of-name :
    (asset : String) (words : List String) (hash : String)
    → hash_of asset words ≡ some hash
    → (name : String) × (rest : List String) × (words ≡ hash ∷ name ∷ rest)
      × ((name ≡ asset) ⊎ (name ≡ "*" <> asset))
hash_of-name asset [] hash h = ground arith
hash_of-name asset (a ∷ []) hash h = ground arith
hash_of-name asset (a ∷ name ∷ rest) hash h = (name, rest, ground arith, ground arith)

checksum_in-line :
    (asset : String) (ls : List String) (hash : String)
    → checksum_in asset ls ≡ some hash
    → (line : String) × In line ls × NamesHash hash asset line
unfolding checksum_in
checksum_in-line asset [] hash h = ground arith
checksum_in-line asset (l ∷ ls) hash h = elim (Option-cases (hash_of asset (split_whitespace l))) [
  | inl e ↦
      let (line, i, n) = checksum_in-line asset ls hash (ground (arith, e, h)) in
      (line, there l ls i, n)
  | inr (a, e) ↦ (l, here ls, hash_of-name asset (split_whitespace l) hash (ground (arith, e, h)))
]

checksum_for_asset-Listed :
    (sha256sums asset hash : String)
    → checksum_for_asset sha256sums asset ≡ some hash
    → ListsHash hash asset sha256sums
unfolding checksum_for_asset
checksum_for_asset-Listed sha256sums asset hash h = checksum_in-line asset (lines sha256sums) hash h

module _ (T : Tools) (asset : String) where
  -- The tarball's hash stands in signed sums, under the name of the asset.
  abbrev pub Verified : (tarball sha256sums minisig : Bytes) → Type 0
  Verified tarball sha256sums minisig =
      (T.is_signed sha256sums minisig ≡ true)
      × ((text : String) × (T.from_utf8 sha256sums ≡ some text)
          × ListsHash (T.sha256_hex tarball) asset text)

  verify-Listed :
      (tarball sha256sums : Bytes)
      → verify_tarball_checksum T asset tarball sha256sums ≡ ok tt
      → (text : String) × (T.from_utf8 sha256sums ≡ some text)
        × ListsHash (T.sha256_hex tarball) asset text
  unfolding verify_tarball_checksum
  verify-Listed tarball sha256sums h = elim (Option-cases (T.from_utf8 sha256sums)) [
    | inl e ↦ ground (arith, e, h)
    | inr (text, e) ↦ elim (Option-cases (checksum_for_asset text asset)) [
      | inl n ↦ ground (arith, e, n, h)
      | inr (hash, f) ↦ (
        text,
        e,
        checksum_for_asset-Listed text asset (T.sha256_hex tarball) (ground (arith, e, f, h)),
      )
    ]
  ]

  unpack-Verified :
      (binary_name old_version version : String) (tarball sha256sums minisig : Bytes)
      (done : List Bytes)
      → ((unpack_verified T asset binary_name old_version version tarball sha256sums minisig done).1
          ≡ done)
        ⊎ (((unpack_verified T asset binary_name old_version version tarball sha256sums minisig
                done).1
              ≡ tarball ∷ done)
            × Verified tarball sha256sums minisig)
  unfolding unpack_verified
  unpack-Verified binary_name old_version version tarball sha256sums minisig done =
      elim (Result-cases (verify_tarball_checksum T asset tarball sha256sums)) [
        | inl (e, q) ↦ inl (rw q refl)
        | inr (u, q) ↦ elim (Bool-cases (T.is_signed sha256sums minisig)) [
          | inr f ↦ inl (ground (arith, q, f))
          | inl f ↦ inr (
            ground (arith, q, f, Result-cases (T.extract tarball)),
            (f, verify-Listed tarball sha256sums q),
          )
        ]
      ]

-- The staging of a component hands at most one tarball to tar, and only one that it has downloaded,
-- whose SHA-256 stands beside the name of the asset in a downloaded SHA256SUMS, which has a valid
-- signature.
pub stage-Verified :
    (T : Tools) (repo : String) (component : Component)
    (binary_name version target old_version : String) (done : List Bytes)
    → ((stage_component T repo component binary_name version target old_version done).1 ≡ done)
      ⊎ ((tarball : Bytes) × (sha256sums : Bytes) × (minisig : Bytes) × (T.download (
              component_release_base repo component version
              <> ("/" <> component_asset_name binary_name version target))
            ≡ ok tarball)
          × (T.download (component_release_base repo component version <> "/SHA256SUMS")
              ≡ ok sha256sums)
          × ((stage_component T repo component binary_name version target old_version done).1
              ≡ tarball ∷ done)
          × Verified T (component_asset_name binary_name version target) tarball sha256sums minisig)
unfolding stage_component
stage-Verified T repo component binary_name version target old_version done =
    let asset = component_asset_name binary_name version target in
    let base = component_release_base repo component version in
    elim (Result-cases (T.download (base <> ("/" <> asset)))) [
      | inl (e, q) ↦ inl (rw q refl)
      | inr (tarball, q) ↦ elim (Result-cases (T.download (base <> "/SHA256SUMS"))) [
        | inl (e, r) ↦ inl (rw q (rw r refl))
        | inr (sums, r) ↦ elim (Result-cases (T.download (base <> "/SHA256SUMS.minisig"))) [
          | inl (e, s) ↦ inl (rw q (rw r (rw s refl)))
          | inr (sig, s) ↦
              elim (unpack-Verified T asset binary_name old_version version tarball sums sig done) [
                | inl h ↦ inl (rw q (rw r (rw s h)))
                | inr (h, v) ↦ inr (tarball, sums, sig, q, r, rw q (rw r (rw s h)), v)
              ]
        ]
      ]
    ]
