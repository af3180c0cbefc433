-- ===== src/Core/Message.antt =====
-- src/core/include/core/message.hpp. `control` is not initialised in a data message.
use xerock.Base.{ℕ, Option, Text, codes}

pub data App : Type 0 where
  main echo serial monitor tcp_server tcp_client udp_client udp_server : App

unfoldable pub App-discrete : Discrete App
App-discrete = hlevel

pub data MessageType : Type 0 where
  payload control : MessageType

pub data Control : Type 0 where
  status config open_control close custom error : Control

pub record MainData : Type 0 where
  pub app : App
  pub time : ℕ
  pub type : MessageType
  pub control : Option Control

-- The texts of src/core/include/core/json/defines.hpp.
unfoldable pub type_text : MessageType → Text
type_text payload = codes "data"
type_text control = codes "control"

unfoldable pub control_text : Control → Text
control_text status = codes "status"
control_text config = codes "config"
control_text close = codes "close"
control_text open_control = codes "open"
control_text error = codes "error"
control_text custom = codes "custom"
