-- ===== src/Gateway/Consumer.antt =====
-- src/common/interfaces/gateway-consumer.interface.ts.
use comos_pay_community_serv.Base.{String, Option, List}

pub data Environment : Type 0 where
  dev prod : Environment

pub data Role : Type 0 where
  admin user : Role

pub record GatewayConsumer : Type 0 where
  pub username : String
  pub credential_id : Option String
  pub environment : Option Environment
  pub role : Option Role
  pub permissions : List String
