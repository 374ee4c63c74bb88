-- ===== src/Intents/Create.antt =====
-- `createTx` and `createPay` of src/payment-intents/payment-intents.service.ts.
pub mod Race
pub mod Answer
pub mod Idempotent
pub mod Repeats
use comos_pay_community_serv.Base.{
  ℕ, String, ◌<>◌, Bool, true, false, not, Option, none, some, List, [], ◌∷◌, ◌++◌, ◌==◌, truthy,
  if◌then◌else◌, coalesce, M, done, fail, pure, throw, lift, or_throw, ◌>>=◌, ◌>>◌, unexpected,
  bad_request, service_unavailable, any, keep,
}
use comos_pay_community_serv.Prisma.Schema.{
  StellarNetwork, public, testnet, PaymentIntent, PaymentIntentKind, tx, pay, pending,
  payment_intent_created, Consumer,
}
use comos_pay_community_serv.Stellar.Horizon.{Reply, found, absent, broken}
use comos_pay_community_serv.Gateway.Consumer.{GatewayConsumer}
use comos_pay_community_serv.Platform.{
  Platform, World, Supply, TransactionRequest, resolve_consumer, emit,
}
use comos_pay_community_serv.Intents.Resolve.{
  resolve_network, ResolvedAsset, resolve_asset, asset_of, passphrase,
}
use comos_pay_community_serv.Intents.Memo.{resolve_memo}
use comos_pay_community_serv.Intents.Store.{PaymentIntentView, with_qr, find_by_memo, persist}

-- src/payment-intents/dto/create-tx-payment-intent.dto.ts. A memo that is null, which the validator
-- passes, is tested and refused as the text "null" is, which stands for it here and below.
pub record CreateTxPaymentIntentDto : Type 0 where
  pub source : String
  pub destination : String
  pub amount : String
  pub asset_code : Option String
  pub asset_issuer : Option String
  pub memo : Option String
  pub msg : Option String
  pub callback : Option String

-- src/payment-intents/dto/create-pay-payment-intent.dto.ts
pub record CreatePayPaymentIntentDto : Type 0 where
  pub destination : String
  pub amount : Option String
  pub asset_code : Option String
  pub asset_issuer : Option String
  pub memo : Option String
  pub msg : Option String
  pub callback : Option String

abbrev pub Params : Type 0
Params = List (String × String)

-- `params.set(name, text)`
unfoldable pub set_param : String → String → Params → Params
set_param name text [] = (name, text) ∷ []
set_param name text ((n, t) ∷ rest) =
    let later = set_param name text rest in
    if n == name then (name, text) ∷ keep (λ q. not (q.0 == name)) rest else (n, t) ∷ later

-- `if (text) params.set(name, text)`
abbrev pub set_if : String → Option String → Params → Params
set_if name none params = params
set_if name (some text) params = if text == "" then params else set_param name text params

unfoldable pub append_sep7_extras : Option String → Option String → Params → Params
unfolding set_param
append_sep7_extras msg callback params = set_if "msg" msg (set_if "callback" callback params)

unfoldable pub pay_params : CreatePayPaymentIntentDto → ResolvedAsset → String → Params
unfolding set_param append_sep7_extras
pay_params dto asset memo =
    let start = set_if "amount" dto.amount (("destination", dto.destination) ∷ []) in
    let priced =
      if asset.code == "native"
      then start
      else set_if "asset_issuer" asset.issuer (set_param "asset_code" asset.code start) in
    append_sep7_extras dto.msg dto.callback
      (set_param "memo_type" "MEMO_ID" (set_param "memo" memo priced))

abbrev network_name : StellarNetwork → String
network_name public = "public"
network_name testnet = "testnet"

module _ (P : Platform) where
  unfoldable pub load_source : StellarNetwork → String → M (World P.client) String
  load_source network source w = elim (P.load_account network source) [
    | found sequence ↦ done sequence w
    | absent ↦
        fail
          (bad_request (
            "Source account "
            <> (source
                <> (" not found or not funded on the " <> (network_name network <> " network")))))
          w
    | broken e ↦ fail (service_unavailable "Could not reach the Stellar network") w
  ]

  -- The end of `createTx` and `createPay`: store the draft and emit the event, or return the
  -- intent that another request has stored under the memo.
  unfoldable pub store : Supply → String → PaymentIntent → M (World P.client) PaymentIntentView
  store s username draft = do
    stored ← persist P s draft
    elim stored [
      | some intent ↦ do emit P.client username payment_intent_created intent; with_qr P intent
      | none ↦ do
        existing ← find_by_memo P draft.consumer_id draft.memo
        intent ← or_throw existing (unexpected "Cannot read properties of null (reading 'uri')")
        with_qr P intent
    ]

  -- The start of both: the local consumer, the asset and the memo.
  unfoldable pub prepare :
      Supply
      → GatewayConsumer
      → Option String
      → Option String
      → Option String
      → M (World P.client) (Consumer × ResolvedAsset × String)
  prepare s consumer asset_code asset_issuer memo = do
    local ← resolve_consumer P.client s consumer
    asset ← lift (resolve_asset P asset_code asset_issuer)
    resolved ← lift (resolve_memo memo s.random)
    pure (local, asset, resolved)

  -- Idempotency: `rest` runs only if no intent of the consumer has the memo.
  unfoldable pub unless_existing :
      String → String → M (World P.client) PaymentIntentView → M (World P.client) PaymentIntentView
  unless_existing consumer_id memo rest = do
    existing ← find_by_memo P consumer_id memo
    elim existing [ some intent ↦ with_qr P intent | none ↦ rest ]

  -- What `createTx` and `createPay` share: prepare, look the memo up, and build only if it is new.
  unfoldable pub create_with :
      Supply
      → GatewayConsumer
      → Option String
      → Option String
      → Option String
      → (Consumer → ResolvedAsset → String → M (World P.client) PaymentIntentView)
      → M (World P.client) PaymentIntentView
  create_with s consumer asset_code asset_issuer memo build = do
    (local, asset, resolved) ← prepare s consumer asset_code asset_issuer memo
    unless_existing local.id resolved (build local asset resolved)

  unfoldable pub pay_draft :
      Supply
      → GatewayConsumer
      → CreatePayPaymentIntentDto
      → String
      → ResolvedAsset
      → String
      → PaymentIntent
  pay_draft s consumer dto consumer_id asset memo = record {
    id = s.id;
    consumer_id = consumer_id;
    kind = pay;
    source = none;
    destination = dto.destination;
    amount = dto.amount;
    asset = asset.code;
    asset_issuer = asset.issuer;
    memo = memo;
    network = resolve_network P.config.network consumer.environment;
    msg = dto.msg;
    callback = dto.callback;
    status = pending;
    xdr = none;
    uri = "web+stellar:pay?" <> P.encode (pay_params dto asset memo);
    tx_hash = none;
    reference = none;
    expires_at = none;
    created_at = s.now;
  }

  unfoldable pub create_pay :
      Supply → GatewayConsumer → CreatePayPaymentIntentDto → M (World P.client) PaymentIntentView
  create_pay s consumer dto =
      create_with s consumer dto.asset_code dto.asset_issuer dto.memo
        λ local asset memo. store s consumer.username (pay_draft s consumer dto local.id asset memo)

  unfoldable pub tx_draft :
      Supply
      → GatewayConsumer
      → CreateTxPaymentIntentDto
      → String
      → ResolvedAsset
      → String
      → String
      → PaymentIntent
  tx_draft s consumer dto consumer_id asset memo xdr = record {
    id = s.id;
    consumer_id = consumer_id;
    kind = tx;
    source = some dto.source;
    destination = dto.destination;
    amount = some dto.amount;
    asset = asset.code;
    asset_issuer = asset.issuer;
    memo = memo;
    network = resolve_network P.config.network consumer.environment;
    msg = dto.msg;
    callback = dto.callback;
    status = pending;
    xdr = some xdr;
    uri =
        "web+stellar:tx?" <> P.encode (append_sep7_extras dto.msg dto.callback (("xdr", xdr) ∷ []));
    tx_hash = none;
    reference = none;
    expires_at = none;
    created_at = s.now;
  }

  -- The unsigned transaction of a `tx` intent.
  unfoldable pub build_transaction :
      GatewayConsumer
      → CreateTxPaymentIntentDto
      → ResolvedAsset
      → String
      → M (World P.client) String
  build_transaction consumer dto asset memo = do
    let network = resolve_network P.config.network consumer.environment
    sequence ← load_source network dto.source
    or_throw
        (P.build_xdr (record {
          source = dto.source;
          sequence = sequence;
          fee = P.config.base_fee;
          network_passphrase = passphrase P network;
          destination = dto.destination;
          amount = dto.amount;
          asset = asset_of asset;
          memo = memo;
          timeout = P.config.timeout_seconds;
        }))
        (unexpected "invalid transaction")

  unfoldable pub create_tx :
      Supply → GatewayConsumer → CreateTxPaymentIntentDto → M (World P.client) PaymentIntentView
  create_tx s consumer dto =
      create_with s consumer dto.asset_code dto.asset_issuer dto.memo λ local asset memo. do
        xdr ← build_transaction consumer dto asset memo
        store s consumer.username (tx_draft s consumer dto local.id asset memo xdr)
