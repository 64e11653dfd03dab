-- ===== src/Model/Resource/Upsert.antt =====
-- What UpsertResource does to the canonical keys of the resources, and that it is idempotent.
use ideate.Common.{
  Bool, false, ◌||◌, ◌≡◌, ◌≢◌, refl, sym, ap, ◌∙◌, none, some, List, [], ◌∷◌, ◌++◌, map, All, arith,
  Bool-cases, Option-cases, inl, inr, if◌then◌else◌,
}
use ideate.Text.{Text}
use ideate.Text.Laws.{text_eq_iff, text_eq_refl}
use ideate.Model.Idea.{Resource}
use ideate.Model.Resource.{
  UrlPackage, url_key, normalize_resource_key, promote, relabel, restate, update_resource,
  upsert_resource, same_key,
}

update_resource_url : (res old : Resource) → (update_resource res old).url ≡ old.url
unfolding update_resource promote relabel restate
update_resource_url res old = ground arith

update_resource_same : (res : Resource) → update_resource res res ≡ res
unfolding update_resource promote relabel restate
update_resource_same res = ground (arith, text_eq_refl res.kind)

-- An update that was made once changes nothing when it is made again.
update_resource_idem :
    (res old : Resource) → update_resource res (update_resource res old) ≡ update_resource res old
unfolding update_resource promote relabel restate
update_resource_idem res old = ground (arith, text_eq_iff res.kind res.kind)

module _ (urls : UrlPackage) where
  -- The URL of the resource has a key of its own, so that no other field is part of the key.
  abbrev pub HasUrlKey : Resource → Type 0
  HasUrlKey r = url_key urls r.url ≢ none

  key_of_url_key :
      (r : Resource) (key : Text)
      → url_key urls r.url ≡ some key
      → normalize_resource_key urls r ≡ key
  unfolding normalize_resource_key
  key_of_url_key r key f = ground (arith, f)

  pub key-url :
      (r s : Resource)
      → HasUrlKey r
      → s.url ≡ r.url
      → normalize_resource_key urls s ≡ normalize_resource_key urls r
  key-url r s h e = elim (Option-cases (url_key urls r.url)) [
    | inl f ↦ elim (h f) [ ]
    | inr (key, f) ↦ key_of_url_key s key (ap (url_key urls) e ∙ f) ∙ sym (key_of_url_key r key f)
  ]

  key-update :
      (res old : Resource)
      → HasUrlKey old
      → normalize_resource_key urls (update_resource res old) ≡ normalize_resource_key urls old
  key-update res old h = key-url old (update_resource res old) h (update_resource_url res old)

  abbrev pub is_tracked : Resource → List Resource → Bool
  is_tracked res [] = false
  is_tracked res (old ∷ olds) = same_key urls old res || is_tracked res olds

  -- Where the URL of every tracked resource has a key of its own, an upsert leaves the keys, their
  -- order included, as they are if the key of the resource is among them, and puts it behind them
  -- if it is not.
  pub keys-upsert_resource :
      (res : Resource) (olds : List Resource)
      → All HasUrlKey olds
      → map (normalize_resource_key urls) (upsert_resource urls res olds) ≡ (
          if is_tracked res olds
          then map (normalize_resource_key urls) olds
          else map (normalize_resource_key urls) olds ++ normalize_resource_key urls res ∷ [])
  unfolding upsert_resource
  keys-upsert_resource res [] h = refl
  keys-upsert_resource res (old ∷ olds) (h, hs) = elim (Bool-cases (same_key urls old res)) [
    | inl e ↦ rw (e, key-update res old h)
    | inr e ↦ ground (arith, e, keys-upsert_resource res olds hs)
  ]

  -- Where the URL of every tracked resource has a key of its own, a second upsert of the same
  -- resource changes nothing.
  pub upsert_resource-upsert_resource :
      (res : Resource) (olds : List Resource)
      → All HasUrlKey olds
      → upsert_resource urls res (upsert_resource urls res olds) ≡ upsert_resource urls res olds
  unfolding upsert_resource
  upsert_resource-upsert_resource res [] h =
      ground (arith, text_eq_refl (normalize_resource_key urls res), update_resource_same res)
  upsert_resource-upsert_resource res (old ∷ olds) (h, hs) =
      elim (Bool-cases (same_key urls old res)) [
        | inl e ↦ rw (e, key-update res old h) (ground (arith, e, update_resource_idem res old))
        | inr e ↦ ground (arith, e, upsert_resource-upsert_resource res olds hs)
      ]
