-- ===== src/Repository/Upserts.antt =====
-- database/repository.py: the rows of `assets` after INSERT ... ON CONFLICT(asset_id) DO UPDATE.
use zero_shadow_autonomous_a.Prelude.{
  String, ◌≡◌, refl, subst, Bool, true, false, List, [], ◌∷◌, arith, ok, ◌>>=◌, ◌>>◌, any, ok_inj,
  >>=-eq-ok, All, eq_iff, In, inl, inr, ap, ◌∙◌, if◌then◌else◌, require,
}
use zero_shadow_autonomous_a.Repository.Tables.{
  AssetRow, check_failed, update_assets, has_asset, same_asset, updated,
}
use zero_shadow_autonomous_a.Repository.Consistency.{Apart, guarded-eq-ok}

-- A row of the same key and the same creation time is among them.
abbrev pub Survives : AssetRow → List AssetRow → Type 0
Survives old rows =
    (new : AssetRow) × In new rows
    × (new.asset_id ≡ old.asset_id)
    × (new.created_at ≡ old.created_at)

module _ (check : AssetRow → Bool) (row : AssetRow) where
  -- The rows differ in at most the row of the same key, or by a new last row.
  pub data Upserted : List AssetRow → List AssetRow → Type 0 where
    added : Upserted [] (row ∷ [])
    changed :
        {old : AssetRow} {rest : List AssetRow}
        → same_asset row old ≡ true
        → check (updated row old) ≡ true
        → Upserted (old ∷ rest) (updated row old ∷ rest)
    kept :
        {old : AssetRow} {rest rows : List AssetRow}
        → same_asset row old ≡ false
        → Upserted rest rows
        → Upserted (old ∷ rest) (old ∷ rows)

  pub update_assets-Upserted :
      (before after : List AssetRow)
      → update_assets check row before ≡ ok after
      → Upserted before after
  unfolding update_assets
  update_assets-Upserted [] after h = subst (Upserted []) (ok_inj h) added
  update_assets-Upserted (old ∷ rest) after h =
      by_key (same_asset row old) (update_assets-Upserted rest) refl h
    where
      by_key :
          (b : Bool)
          → ((rows : List AssetRow) → update_assets check row rest ≡ ok rows → Upserted rest rows)
          → same_asset row old ≡ b
          → (if b
              then (require (check (updated row old)) check_failed >> ok (updated row old ∷ rest))
              else (update_assets check row rest >>= λ rows. ok (old ∷ rows)))
            ≡ ok after
          → Upserted (old ∷ rest) after
      by_key true step e k =
          let found = guarded-eq-ok (check (updated row old)) _ _ k in
          subst (Upserted (old ∷ rest)) (ok_inj found.1) (changed e found.0)
      by_key false step e k =
          let more = >>=-eq-ok (update_assets check row rest) (λ rows. ok (old ∷ rows)) k in
          subst (Upserted (old ∷ rest)) (ok_inj more.2) (kept e (step more.0 more.1))

  pub has_asset-Upserted :
      (id : String) {before after : List AssetRow}
      → Upserted before after
      → has_asset id before ≡ true
      → has_asset id after ≡ true
  has_asset-Upserted id added h = cc
  has_asset-Upserted id (changed e c) h = h
  has_asset-Upserted id (kept {old} e u) h = ground (arith, has_asset-Upserted id u)

  In-Upserted :
      (x : AssetRow) {before after : List AssetRow}
      → Upserted before after
      → In x before
      → Survives x after
  In-Upserted x added m = absurd m
  In-Upserted x (changed {old} {rest} e c) (inl m) = (
    updated row old,
    inl refl,
    ap (λ (a : AssetRow). a.asset_id) m,
    ap (λ (a : AssetRow). a.created_at) m,
  )
  In-Upserted x (changed {old} {rest} e c) (inr m) = (x, inr m, refl, refl)
  In-Upserted x (kept {old} e u) (inl m) =
      (old, inl refl, ap (λ (a : AssetRow). a.asset_id) m, ap (λ (a : AssetRow). a.created_at) m)
  In-Upserted x (kept {old} e u) (inr m) =
      let (new, k, id, time) = In-Upserted x u m in (new, inr k, id, time)

  -- An asset that has survived survives the update.
  pub Survives-Upserted :
      (x : AssetRow) {before after : List AssetRow}
      → Upserted before after
      → Survives x before
      → Survives x after
  Survives-Upserted x u (old, m, id, time) =
      let (new, k, same_id, same_time) = In-Upserted old u m in
      (new, k, same_id ∙ id, same_time ∙ time)

  same-Upserted :
      (x : AssetRow) {before after : List AssetRow}
      → Upserted before after
      → any (same_asset x) before ≡ false
      → same_asset x row ≡ false
      → any (same_asset x) after ≡ false
  same-Upserted x added h k = ground (arith, k)
  same-Upserted x (changed e c) h k = h
  same-Upserted x (kept e u) h k = ground (arith, same-Upserted x u)

  pub Apart-Upserted :
      {before after : List AssetRow}
      → Upserted before after
      → Apart same_asset before
      → Apart same_asset after
  Apart-Upserted added a = (refl, tt)
  Apart-Upserted (changed e c) a = a
  Apart-Upserted (kept {old} e u) a = (
    same-Upserted old u a.0
        (ground (arith, e, eq_iff old.asset_id row.asset_id, eq_iff row.asset_id old.asset_id)),
    Apart-Upserted u a.1,
  )

  pub checks-Upserted :
      {before after : List AssetRow}
      → Upserted before after
      → check row ≡ true
      → All (λ a. check a ≡ true) before
      → All (λ a. check a ≡ true) after
  checks-Upserted added c h = (c, tt)
  checks-Upserted (changed e d) c h = (d, h.1)
  checks-Upserted (kept e u) c h = (h.0, checks-Upserted u c h.1)
