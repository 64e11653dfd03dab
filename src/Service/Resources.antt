-- ===== src/Service/Resources.antt =====
-- DeleteResource after AddResource, on the resources that they read and write.
use ideate.Common.{false, ◌≡◌, refl, ap, ◌∙◌, some, List, [], ◌∷◌, arith}
use ideate.Text.{Text}
use ideate.Text.Laws.{text_eq_refl}
use ideate.Model.Idea.{Resource}
use ideate.Model.Resource.{normalize_resource_key, upsert_resource}
use ideate.Model.Resource.Upsert.{HasUrlKey, is_tracked, key-url}
use ideate.Service.{Ports, remove_key}

module _ {W E : Type 0} (p : Ports W E) where
  -- The resource by which DeleteResource makes its key.
  abbrev pub by_url : Text → Resource
  by_url url = record { kind = []; url = url; label = []; status = [] }

  remove_own :
      (res : Resource) (olds : List Resource)
      → is_tracked p.urls res olds ≡ false
      → remove_key p (normalize_resource_key p.urls res) (upsert_resource p.urls res olds)
        ≡ some olds
  unfolding remove_key upsert_resource
  remove_own res [] h = rw (text_eq_refl (normalize_resource_key p.urls res))
  remove_own res (old ∷ olds) h = ground (arith, h, remove_own res olds)

  -- Where the URL of a resource has a key of its own and no tracked resource has that key, to upsert
  -- the resource and then to remove the first one of its URL gives back the resources.
  pub remove_key-upsert_resource :
      (res : Resource) (olds : List Resource)
      → HasUrlKey p.urls res
      → is_tracked p.urls res olds ≡ false
      → remove_key p
          (normalize_resource_key p.urls (by_url res.url))
          (upsert_resource p.urls res olds)
        ≡ some olds
  remove_key-upsert_resource res olds h new =
      ap (λ key. remove_key p key (upsert_resource p.urls res olds))
        (key-url p.urls res (by_url res.url) h refl)
      ∙ remove_own res olds new
