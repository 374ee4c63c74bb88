-- ===== src/Isolation/Creation.antt =====
-- Creating an intent spares the rows of other consumers.
use comos_pay_community_serv.Isolation.Spares.{
  IsSparing, IsSparing-bind, reader-IsSparing, resolve_consumer-IsSparing, untouched, Spares-refl,
}
use comos_pay_community_serv.Prisma.Schema.{
  Consumer, PaymentIntent, StellarNetwork, WebhookEventType, payment_intent_created,
}
use comos_pay_community_serv.Intents.Create.{
  CreatePayPaymentIntentDto, CreateTxPaymentIntentDto, build_transaction, create_pay, create_tx,
  create_with, load_source, pay_draft, prepare, store, tx_draft, unless_existing,
}
use comos_pay_community_serv.Gateway.Consumer.{GatewayConsumer}
use comos_pay_community_serv.Prisma.Client.{IsLawfulClient}
use comos_pay_community_serv.Http.ReadOnly.{IsReader, IsReader-bind, IsReader-or_throw}
use comos_pay_community_serv.Base.{
  M, Option, Outcome, String, arith, lift, none, or_throw, raised, refl, some, unexpected, value,
  ◌>>=◌, ◌>>◌, Exception,
}
use comos_pay_community_serv.Intents.Store.{PaymentIntentView, find_by_memo, persist, with_qr}
use comos_pay_community_serv.Platform.{Platform, Supply, World, emit, resolve_consumer}
use comos_pay_community_serv.Intents.Resolve.{ResolvedAsset, resolve_asset, resolve_network}
use comos_pay_community_serv.Isolation.Rows.{persist-IsSparing}
use comos_pay_community_serv.Intents.Memo.{resolve_memo}

module _ (P : Platform) where
  with_qr-IsReader : (intent : PaymentIntent) → IsReader (with_qr P intent)
  unfolding with_qr
  with_qr-IsReader intent =
      IsReader-bind (or_throw (P.qr intent.uri) (unexpected "QR code generation failed")) _
        (IsReader-or_throw (P.qr intent.uri) (unexpected "QR code generation failed"))
        (λ code w. refl)

  load_source-IsReader :
      (network : StellarNetwork) (source : String) → IsReader (load_source P network source)
  unfolding load_source
  load_source-IsReader network source w = ground arith

  find_by_memo-IsReader : (consumer_id memo : String) → IsReader (find_by_memo P consumer_id memo)
  unfolding find_by_memo
  find_by_memo-IsReader consumer_id memo w = refl

  build_transaction-IsReader :
      (c : GatewayConsumer) (dto : CreateTxPaymentIntentDto) (asset : ResolvedAsset) (memo : String)
      → IsReader (build_transaction P c dto asset memo)
  unfolding build_transaction
  build_transaction-IsReader c dto asset memo =
      IsReader-bind (load_source P (resolve_network P.config.network c.environment) dto.source) _
        (load_source-IsReader (resolve_network P.config.network c.environment) dto.source)
        λ sequence. IsReader-or_throw _ (unexpected "invalid transaction")

module _ (P : Platform) (username : String) where
  pub viewed-IsSparing : (intent : PaymentIntent) → IsSparing P username (with_qr P intent)
  viewed-IsSparing intent =
      reader-IsSparing P username (with_qr P intent) (with_qr-IsReader P intent)

  pub lifted-IsSparing : {A : Type 0} (o : Outcome A) → IsSparing P username (lift o)
  lifted-IsSparing (value a) = Spares-refl P username
  lifted-IsSparing (raised e) = Spares-refl P username

  thrown-IsSparing :
      {A : Type 0} (o : Option A) (e : Exception) → IsSparing P username (or_throw o e)
  thrown-IsSparing o e = reader-IsSparing P username (or_throw o e) (IsReader-or_throw o e)

  looked_up-IsSparing :
      (consumer_id memo : String) → IsSparing P username (find_by_memo P consumer_id memo)
  looked_up-IsSparing consumer_id memo =
      reader-IsSparing P username (find_by_memo P consumer_id memo)
        (find_by_memo-IsReader P consumer_id memo)

  pub emit-IsSparing :
      (name : String) (type : WebhookEventType) (intent : PaymentIntent)
      → IsSparing P username (emit P.client name type intent)
  emit-IsSparing name type intent w = untouched P username w _ refl refl refl refl refl

  pub announced-IsSparing :
      (name : String) (type : WebhookEventType) (intent : PaymentIntent)
      → IsSparing P username (emit P.client name type intent >> with_qr P intent)
  announced-IsSparing name type intent =
      IsSparing-bind P username (emit P.client name type intent) (λ _. with_qr P intent)
        (emit-IsSparing name type intent) (λ _. viewed-IsSparing intent)

module _ (P : Platform) (law : IsLawfulClient P.client) (username : String) where
  store-IsSparing :
      (s : Supply) (name : String) (draft : PaymentIntent)
      → IsSparing P username (store P s name draft)
  unfolding store
  store-IsSparing s name draft =
      IsSparing-bind P username (persist P s draft) _ (persist-IsSparing P law username s draft)
        (answers s name draft)
    where
      answers :
          (s : Supply) (name : String) (draft : PaymentIntent) (stored : Option PaymentIntent)
          → IsSparing P username (elim stored [
            | some intent ↦ emit P.client name payment_intent_created intent >> with_qr P intent
            | none ↦ find_by_memo P draft.consumer_id draft.memo >>= λ existing.
                or_throw existing (unexpected "Cannot read properties of null (reading 'uri')")
                >>= λ intent. with_qr P intent
          ])
      answers s name draft (some intent) =
          announced-IsSparing P username name payment_intent_created intent
      answers s name draft none =
          IsSparing-bind P username (find_by_memo P draft.consumer_id draft.memo) _
            (looked_up-IsSparing P username draft.consumer_id draft.memo)
            λ existing.
              IsSparing-bind P username
                (or_throw existing (unexpected "Cannot read properties of null (reading 'uri')")) _
                (thrown-IsSparing P username existing
                  (unexpected "Cannot read properties of null (reading 'uri')"))
                (viewed-IsSparing P username)

  unless_existing-IsSparing :
      (consumer_id memo : String) (rest : M (World P.client) PaymentIntentView)
      → IsSparing P username rest
      → IsSparing P username (unless_existing P consumer_id memo rest)
  unfolding unless_existing
  unless_existing-IsSparing consumer_id memo rest h =
      IsSparing-bind P username (find_by_memo P consumer_id memo) _
        (looked_up-IsSparing P username consumer_id memo) go
    where
      go :
          (existing : Option PaymentIntent)
          → IsSparing P username (elim existing [ some intent ↦ with_qr P intent | none ↦ rest ])
      go (some intent) = viewed-IsSparing P username intent
      go none = h

module _ (P : Platform) (law : IsLawfulClient P.client) where
  prepare-IsSparing :
      (s : Supply) (c : GatewayConsumer) (code issuer memo : Option String)
      → IsSparing P c.username (prepare P s c code issuer memo)
  unfolding prepare
  prepare-IsSparing s c code issuer memo =
      IsSparing-bind P c.username (resolve_consumer P.client s c) _
        (resolve_consumer-IsSparing P law s c)
        λ local.
          IsSparing-bind P c.username (lift (resolve_asset P code issuer)) _
            (lifted-IsSparing P c.username (resolve_asset P code issuer))
            λ asset.
              IsSparing-bind P c.username (lift (resolve_memo memo s.random)) _
                (lifted-IsSparing P c.username (resolve_memo memo s.random))
                (λ resolved. Spares-refl P c.username)

  create_with-IsSparing :
      (s : Supply) (c : GatewayConsumer) (code issuer memo : Option String)
      (build : Consumer → ResolvedAsset → String → M (World P.client) PaymentIntentView)
      → ((local : Consumer) (asset : ResolvedAsset) (m : String)
          → IsSparing P c.username (build local asset m))
      → IsSparing P c.username (create_with P s c code issuer memo build)
  unfolding create_with
  create_with-IsSparing s c code issuer memo build h =
      IsSparing-bind P c.username (prepare P s c code issuer memo) _
        (prepare-IsSparing s c code issuer memo)
        λ (local, asset, m).
          unless_existing-IsSparing P law c.username local.id m (build local asset m)
            (h local asset m)

  pub create_pay-IsSparing :
      (s : Supply) (c : GatewayConsumer) (dto : CreatePayPaymentIntentDto)
      → IsSparing P c.username (create_pay P s c dto)
  unfolding create_pay
  create_pay-IsSparing s c dto =
      create_with-IsSparing s c dto.asset_code dto.asset_issuer dto.memo _ λ local asset m.
        store-IsSparing P law c.username s c.username (pay_draft P s c dto local.id asset m)

  pub create_tx-IsSparing :
      (s : Supply) (c : GatewayConsumer) (dto : CreateTxPaymentIntentDto)
      → IsSparing P c.username (create_tx P s c dto)
  unfolding create_tx
  create_tx-IsSparing s c dto =
      create_with-IsSparing s c dto.asset_code dto.asset_issuer dto.memo _ λ local asset m.
        IsSparing-bind P c.username (build_transaction P c dto asset m) _
          (reader-IsSparing P c.username (build_transaction P c dto asset m)
            (build_transaction-IsReader P c dto asset m))
          λ xdr.
            store-IsSparing P law c.username s c.username (tx_draft P s c dto local.id asset m xdr)
