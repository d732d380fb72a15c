-- ===== src/Store/RepoManager/Observing.antt =====
-- What the drivers of Artifactory and Nexus report: absence, and deletions.
use artifact_controller.Prelude.{
  ℕ, String, Bool, true, false, ◌≡◌, refl, arith, subst, sym, equal, List, [], ◌∷◌, inl, inr, ◌⊎◌,
  Bool-cases,
}
use artifact_controller.Prelude.Int.{pos}
use artifact_controller.Prelude.Result.{ok}
use artifact_controller.Prelude.Result.Bind.{Result-cases}
use artifact_controller.Toolkit.{Toolkit, Arg}
use artifact_controller.Store.{Observation, no_observation}
use artifact_controller.Web.{Web, Log}
use artifact_controller.Web.Formats.{StorageInfo, NexusAsset}
use artifact_controller.Store.RepoManager.{observe}
use artifact_controller.Store.RepoManager.Driver.{RepoDriver, Flavour, exchange}
use artifact_controller.Store.RepoManager.Artifactory.{
  storage_url, storage_shown, read_storage, observe_artifactory,
}
use artifact_controller.Store.RepoManager.Nexus.{
  search_url, read_search, asset_shown, observe_nexus,
}

Flavour-cases : (f : Flavour) → (f ≡ Flavour.artifactory) ⊎ (f ≡ Flavour.nexus)
Flavour-cases Flavour.artifactory = inl refl
Flavour-cases Flavour.nexus = inr refl

module _ (k : Toolkit) (w : Web) where
  -- The URL at which an object is looked up.
  abbrev pub lookup_url : Flavour → RepoDriver → String → String
  lookup_url Flavour.artifactory d key = storage_url k w d key
  lookup_url Flavour.nexus d key = search_url k w d key

  -- An answer that shows an object, or that shows none: Nexus answers a search that finds nothing
  -- with 200 and no items.
  abbrev pub Tells : Flavour → ℕ → String → Bool → Type 0
  Tells Flavour.artifactory code body true =
      (code ≡ 200) × (out : StorageInfo) × (w.unmarshal_storage body ≡ ok out)
  Tells Flavour.artifactory code body false = code ≡ 404
  Tells Flavour.nexus code body true =
      (code ≡ 200)
      × (item : NexusAsset) × (more : List NexusAsset) × (w.unmarshal_assets body
          ≡ ok (item ∷ more))
  Tells Flavour.nexus code body false =
      (code ≡ 404) ⊎ ((code ≡ 200) × (w.unmarshal_assets body ≡ ok []))

  -- The answer to the lookup of a key tells whether there is an object.
  abbrev pub Told : Flavour → RepoDriver → String → Log → Bool → Type 0
  Told f d key log exists =
      (code : ℕ) × (body : String) × ((exchange k w d "GET" (lookup_url f d key) log).0
        ≡ ok (code, body))
      × Tells f code body exists

  abbrev failure_text : String → ℕ → String
  failure_text key code =
      k.sprintf "nexus returned %d for %s" (Arg.num (pos code) ∷ Arg.text key ∷ [])

  read_storage-Tells :
      (key : String) (code : ℕ) (body : String) (obs : Observation)
      → read_storage k w key (code, body) ≡ ok obs
      → Tells Flavour.artifactory code body obs.exists
  unfolding read_storage storage_shown
  read_storage-Tells key code body obs e = elim (Bool-cases (equal code 404)) [
    | inl t ↦
        let q : obs ≡ no_observation = ground (arith, t, e) in
        subst (λ (o : Observation). Tells Flavour.artifactory code body o.exists) (sym q)
          (ground (arith, t))
    | inr n ↦ elim (Result-cases (w.unmarshal_storage body)) [
      | inr (x, p) ↦ ground (arith, n, p, e)
      | inl (out, p) ↦
          let q : obs ≡ storage_shown k w out = ground (arith, n, p, e) in
          let c : code ≡ 200 = ground (arith, n, p, e) in
          subst (λ (o : Observation). Tells Flavour.artifactory code body o.exists) (sym q)
            ((c, out, p))
    ]
  ]

  read_search-Tells :
      (failure : String) (code : ℕ) (body : String) (items : List NexusAsset)
      → read_search k w failure (code, body) ≡ ok items
      → Tells Flavour.nexus code body (asset_shown k w items).exists
  unfolding read_search
  read_search-Tells failure code body [] e = ground (arith, e)
  read_search-Tells failure code body (item ∷ more) e =
      elim (Result-cases (w.unmarshal_assets body)) [
        | inr (x, p) ↦ ground (arith, p, e)
        | inl (items, p) ↦ ground (arith, p, e)
      ]

  observe_artifactory-Told :
      (d : RepoDriver) (key : String) (log : Log) (obs : Observation)
      → (observe_artifactory k w d key log).0 ≡ ok obs
      → Told Flavour.artifactory d key log obs.exists
  unfolding observe_artifactory
  observe_artifactory-Told d key log obs e =
      elim (Result-cases (exchange k w d "GET" (storage_url k w d key) log).0) [
        | inr (x, p) ↦ ground (arith, p, e)
        | inl ((code, body), p) ↦
            (code, body, p, read_storage-Tells key code body obs (ground (arith, p, e)))
      ]

  observe_nexus-Told :
      (d : RepoDriver) (key : String) (log : Log) (obs : Observation)
      → (observe_nexus k w d key log).0 ≡ ok obs
      → Told Flavour.nexus d key log obs.exists
  unfolding observe_nexus
  observe_nexus-Told d key log obs e =
      elim (Result-cases (exchange k w d "GET" (search_url k w d key) log).0) [
        | inr (x, p) ↦ ground (arith, p, e)
        | inl ((code, body), p) ↦
            elim (Result-cases (read_search k w (failure_text key code) (code, body))) [
              | inr (x, q) ↦ ground (arith, p, q, e)
              | inl (items, q) ↦
                  let same : obs ≡ asset_shown k w items = ground (arith, p, q, e) in
                  (
                    code,
                    body,
                    p,
                    subst (λ (o : Observation). Tells Flavour.nexus code body o.exists) (sym same)
                        (read_search-Tells (failure_text key code) code body items q),
                  )
            ]
      ]

  -- An observation of either product that succeeds reports what one request was answered: an object
  -- only on 200 with a document that shows it, and absence only on 404 or, from Nexus, on 200 with
  -- no items. No other status and no document that does not decode counts as absence.
  pub observe-Told :
      (d : RepoDriver) (key : String) (log : Log) (obs : Observation)
      → (observe k w d key log).0 ≡ ok obs
      → Told d.flavour d key log obs.exists
  unfolding observe
  observe-Told d key log obs e = elim (Flavour-cases d.flavour) [
    | inl f ↦
        subst (λ g. Told g d key log obs.exists) (sym f)
          (observe_artifactory-Told d key log obs (ground (arith, f, e)))
    | inr f ↦
        subst (λ g. Told g d key log obs.exists) (sym f)
          (observe_nexus-Told d key log obs (ground (arith, f, e)))
  ]
