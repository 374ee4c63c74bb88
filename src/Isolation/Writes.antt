-- ===== src/Isolation/Writes.antt =====
-- One write of a table spares the rows of other consumers, where the row that it changes is not one
-- of them.
use comos_pay_community_serv.Isolation.Holds.{
  Holds, Holds-refl, create-Holds, update-Holds, delete-Holds,
}
use comos_pay_community_serv.Isolation.Spares.{IsAnothers, Spares, Spares-refl}
use comos_pay_community_serv.Base.{
  String, false, refl, some, true, world, ◌≡◌, Bool, Exception, Option, done, fail, none,
}
use comos_pay_community_serv.Prisma.Client.{IsLawfulClient}
use comos_pay_community_serv.Platform.{Platform, World, not_found_error, unique_error}
use comos_pay_community_serv.Prisma.Table.{Write, conflict, missing, written, IsLawful, Table}

module _ (P : Platform) (law : IsLawfulClient P.client) (username : String) where
  pub intents-Spares :
      (w : World P.client) (t : P.client.payment_intent.State)
      → Holds P.client.payment_intent (λ r. IsAnothers P w username r.consumer_id) w.intents t
      → Spares P username w (record w { intents = t })
  intents-Spares w t h = record {
    consumers = Holds-refl P.client.consumer _ w.consumers w.consumers refl;
    customers = Holds-refl P.client.customer _ w.customers w.customers refl;
    products = Holds-refl P.client.product _ w.products w.products refl;
    intents = h;
    endpoints = Holds-refl P.client.webhook_endpoint _ w.endpoints w.endpoints refl;
  }

  pub endpoints-Spares :
      (w : World P.client) (t : P.client.webhook_endpoint.State)
      → Holds P.client.webhook_endpoint (λ r. IsAnothers P w username r.consumer_id) w.endpoints t
      → Spares P username w (record w { endpoints = t })
  endpoints-Spares w t h = record {
    consumers = Holds-refl P.client.consumer _ w.consumers w.consumers refl;
    customers = Holds-refl P.client.customer _ w.customers w.customers refl;
    products = Holds-refl P.client.product _ w.products w.products refl;
    intents = Holds-refl P.client.payment_intent _ w.intents w.intents refl;
    endpoints = h;
  }

  pub customers-Spares :
      (w : World P.client) (t : P.client.customer.State)
      → Holds P.client.customer (λ r. IsAnothers P w username r.consumer_id) w.customers t
      → Spares P username w (record w { customers = t })
  customers-Spares w t h = record {
    consumers = Holds-refl P.client.consumer _ w.consumers w.consumers refl;
    customers = h;
    products = Holds-refl P.client.product _ w.products w.products refl;
    intents = Holds-refl P.client.payment_intent _ w.intents w.intents refl;
    endpoints = Holds-refl P.client.webhook_endpoint _ w.endpoints w.endpoints refl;
  }

  pub products-Spares :
      (w : World P.client) (t : P.client.product.State)
      → Holds P.client.product (λ r. IsAnothers P w username r.consumer_id) w.products t
      → Spares P username w (record w { products = t })
  products-Spares w t h = record {
    consumers = Holds-refl P.client.consumer _ w.consumers w.consumers refl;
    customers = Holds-refl P.client.customer _ w.customers w.customers refl;
    products = h;
    intents = Holds-refl P.client.payment_intent _ w.intents w.intents refl;
    endpoints = Holds-refl P.client.webhook_endpoint _ w.endpoints w.endpoints refl;
  }

-- One write of a table, which succeeds at the world `put t` or fails at `w`.
module _ {Row : Type 0} (key : Row → String) (clash : Row → Row → Bool) (P : Platform)
    (username : String) (T : Table Row) (law : IsLawful key clash T) (Q : Row → Type 0)
    (s : T.State) (w : World P.client) (put : T.State → World P.client)
    (spares : (t : T.State) → Holds T Q s t → Spares P username w (put t)) where
  pub creating-Spares :
      (r : Row) (e : Exception)
      → Spares P username w
          (world {A = Row} (elim (T.create r s) [ none ↦ fail e w | some t ↦ done r (put t) ]))
  creating-Spares r e = go (T.create r s) refl
    where
      go :
          (o : Option T.State)
          → T.create r s ≡ o
          → Spares P username w
              (world {A = Row} (elim o [ none ↦ fail e w | some t ↦ done r (put t) ]))
      go none k = Spares-refl P username w
      go (some t) k = spares t (create-Holds key clash T law Q r s t k)

  pub updating-Spares :
      (id : String) (f : Row → Row)
      → ((q : Row) → key (f q) ≡ key q)
      → ((q : Row) → T.get id s ≡ some q → Q q → false ≡ true)
      → Spares P username w (
          world {A = Row} (elim (T.update id f s) [
            | written r t ↦ done r (put t)
            | missing ↦ fail not_found_error w
            | conflict ↦ fail unique_error w
          ]))
  updating-Spares id f fixes apart = go (T.update id f s) refl
    where
      go :
          (o : Write Row T.State)
          → T.update id f s ≡ o
          → Spares P username w (
              world {A = Row} (elim o [
                | written r t ↦ done r (put t)
                | missing ↦ fail not_found_error w
                | conflict ↦ fail unique_error w
              ]))
      go (written r t) k = spares t (update-Holds key clash T law Q id f s t r fixes k apart)
      go missing k = Spares-refl P username w
      go conflict k = Spares-refl P username w

  pub deleting-Spares :
      {A : Type 0} (id : String) (answer : Row → A)
      → ((q : Row) → T.get id s ≡ some q → Q q → false ≡ true)
      → Spares P username w (
          world {A = A} (elim (T.delete id s) [
            | none ↦ fail not_found_error w
            | some (r, t) ↦ done (answer r) (put t)
          ]))
  deleting-Spares {A} id answer apart = go (T.delete id s) refl
    where
      go :
          (o : Option (Row × T.State))
          → T.delete id s ≡ o
          → Spares P username w (
              world {A = A}
                (elim o [ none ↦ fail not_found_error w | some (r, t) ↦ done (answer r) (put t) ]))
      go none k = Spares-refl P username w
      go (some (r, t)) k = spares t (delete-Holds key clash T law Q id s t r k apart)
