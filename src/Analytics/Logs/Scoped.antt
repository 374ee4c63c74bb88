-- ===== src/Analytics/Logs/Scoped.antt =====
-- Whose deliveries the webhook log of a consumer shows.
use comos_pay_community_serv.Base.{
  ℕ, suc, ◌≤◌, ◌-◌, min, String, Bool, true, some, List, [], ◌∷◌, ◌≡◌, refl, sym, ap, subst, ◌∙◌,
  ◌⊎◌, inl, inr, arith, ◌==◌, eq_iff, map, length, includes, All, All-map, map_get, map_set,
  get-set, Bool-cases, done,
}
use comos_pay_community_serv.Prisma.Schema.{WebhookEndpoint, WebhookDelivery}
use comos_pay_community_serv.Prisma.Client.{IsLawfulClient}
use comos_pay_community_serv.Prisma.Table.{unordered, whole}
use comos_pay_community_serv.Platform.{Platform, World}
use comos_pay_community_serv.Analytics.Summary.{endpoints_of, ids_of}
use comos_pay_community_serv.Analytics.Logs.{
  WebhookLogs, WebhookLogRow, newest, urls_by_id, webhook_row, deliveries_log, list_webhook_logs,
}

length-map : {A B : Type 0} (f : A → B) (xs : List A) → length (map f xs) ≡ length xs
length-map f [] = refl
length-map f (x ∷ xs) = ap (λ n. suc n) (length-map f xs)

All-under_map :
    {A B : Type 0} (Q : B → Type 0) (f : A → B) (xs : List A)
    → All (λ x. Q (f x)) xs
    → All Q (map f xs)
All-under_map Q f [] h = tt
All-under_map Q f (x ∷ xs) (q, h) = (q, All-under_map Q f xs h)

-- What the map of the urls holds comes from the endpoints, and it holds each of them.
get-urls_by_id :
    (Q : String → String → Type 0) (m : List (String × String)) (es : List WebhookEndpoint)
    → ((k u : String) → map_get k m ≡ some u → Q k u)
    → All (λ (e : WebhookEndpoint). Q e.id e.url) es
    → (k u : String) → map_get k (urls_by_id m es) ≡ some u
    → Q k u
unfolding urls_by_id
get-urls_by_id Q m [] old h k u g = old k u g
get-urls_by_id Q m (e ∷ rest) old (q, h) k u g =
    get-urls_by_id Q (map_set e.id e.url m) rest
      (λ j v found. elim (Bool-cases (e.id == j)) [
        | inl same ↦
            let it : e.url ≡ v = ground (arith, get-set e.id j e.url m, found) in
            subst (λ x. Q j x) it (subst (λ x. Q x e.url) ((eq_iff e.id j).0 same) q)
        | inr other ↦ old j v (ground (arith, get-set e.id j e.url m, found))
      ])
      h k u g

urls_by_id-there :
    (P : Platform) (k : String) (m : List (String × String)) (es : List WebhookEndpoint)
    → ((u : String) × (map_get k m ≡ some u)) ⊎ (includes k (ids_of P es) ≡ true)
    → (u : String) × (map_get k (urls_by_id m es) ≡ some u)
unfolding urls_by_id
urls_by_id-there P k m [] (inl found) = found
urls_by_id-there P k m [] (inr h) = absurd (ground arith)
urls_by_id-there P k m (e ∷ rest) h = elim (Bool-cases (e.id == k)) [
  | inl same ↦
      urls_by_id-there P k (map_set e.id e.url m) rest
        (inl (e.url, get-set e.id k e.url m ∙ rw same refl))
  | inr other ↦ urls_by_id-there P k (map_set e.id e.url m) rest (elim h [
    | inl (u, found) ↦ inl (u, get-set e.id k e.url m ∙ rw other found)
    | inr listed ↦ inr (ground (arith, listed))
  ])
]

module _ (P : Platform) where
  -- The row is of a stored delivery of an endpoint that the consumer owns, with the url of that
  -- endpoint.
  abbrev pub IsOwnDelivery : World P.client → String → WebhookLogRow → Type 0
  IsOwnDelivery w consumer_id row =
      (d : WebhookDelivery) × (e : WebhookEndpoint) × (P.client.webhook_delivery.get row.id
          w.deliveries
        ≡ some d)
      × (P.client.webhook_endpoint.get d.endpoint_id w.endpoints ≡ some e)
      × (e.consumer_id ≡ consumer_id)
      × (row.url ≡ some e.url)

module _ (P : Platform) (law : IsLawfulClient P.client) where
  deliveries_log_lem :
      (take : ℕ) (w : World P.client) (consumer_id : String) (es : List WebhookEndpoint)
      → All
          (λ (e : WebhookEndpoint).
            (P.client.webhook_endpoint.get e.id w.endpoints ≡ some e)
            × (e.consumer_id ≡ consumer_id))
          es
      → (l : WebhookLogs) × (deliveries_log P take es w ≡ done l w)
        × All (IsOwnDelivery P w consumer_id) l.items
        × (l.total ≡ length l.items)
        × (l.total ≤ take)
  unfolding deliveries_log webhook_row map_get
  deliveries_log_lem take w consumer_id [] own =
      (record { items = []; total = 0 }, refl, tt, refl, omega arith)
  deliveries_log_lem take w consumer_id (first ∷ rest) own =
      let es : List WebhookEndpoint = first ∷ rest in
      let asked : WebhookDelivery → Bool = λ d. includes d.endpoint_id (ids_of P es) in
      let found : List WebhookDelivery =
        P.client.webhook_delivery.find_many asked (newest take) w.deliveries in
      let urls : List (String × String) = urls_by_id [] es in
      let few : length found ≡ min take (P.client.webhook_delivery.count asked w.deliveries - 0) =
        law.webhook_delivery.length-find_many asked (newest take) w.deliveries in
      let OwnUrl : String → String → Type 0 = λ k u.
        (e : WebhookEndpoint) × (P.client.webhook_endpoint.get k w.endpoints ≡ some e)
        × (e.consumer_id ≡ consumer_id)
        × (e.url ≡ u) in
      (
        record {
          items = map (webhook_row urls) found;
          total = length (map (webhook_row urls) found);
        },
        refl,
        All-under_map (IsOwnDelivery P w consumer_id) (webhook_row urls) found (
            All-map
              (λ d (stored, listed).
                let (u, g) = urls_by_id-there P d.endpoint_id [] es (inr listed) in
                let (e, there, owned, url) =
                  get-urls_by_id OwnUrl [] es (λ k v none_yet. absurd (cc none_yet))
                    (All-map (λ e (kept, o). (e, kept, o, refl)) es own) d.endpoint_id u g in
                (d, e, stored, there, owned, g ∙ ap some (sym url)))
              found (law.webhook_delivery.find_many_sound asked (newest take) w.deliveries)),
        refl,
        omega (arith, length-map (webhook_row urls) found, few),
      )

  -- The webhook log is read without a change of the world. It shows at most as many rows as asked
  -- for, each of a stored delivery of an endpoint that the consumer owns, with the url of that
  -- endpoint.
  pub list_webhook_logs_lem :
      (take : ℕ) (w : World P.client) (consumer_id : String)
      → (l : WebhookLogs) × (list_webhook_logs P take consumer_id w ≡ done l w)
        × All (IsOwnDelivery P w consumer_id) l.items
        × (l.total ≡ length l.items)
        × (l.total ≤ take)
  unfolding list_webhook_logs
  list_webhook_logs_lem take w consumer_id =
      deliveries_log_lem take w consumer_id (endpoints_of P w consumer_id) (
        All-map (λ e (stored, own). (stored, (eq_iff e.consumer_id consumer_id).0 own))
          (endpoints_of P w consumer_id)
          (law.webhook_endpoint.find_many_sound (λ e. e.consumer_id == consumer_id)
            (whole unordered) w.endpoints))
