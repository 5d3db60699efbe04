-- ===== src/Qoi/Messages.antt =====
-- core/qoi/messages.py: the protocol's messages. A message's type is its constructor, as each
-- class sets `msg_type` when it is made; the classes' shared fields are the record `Header`.
use ai_inference_chain.Prelude.{ℕ, List}
use ai_inference_chain.Blockchain.Constants.{Text}
use ai_inference_chain.Qoi.Quality.{Floats}

-- `BaseMessage`
pub record Header : Type 0 where
  pub view : ℕ
  pub seq : ℕ
  pub sender_id : Text
  pub timestamp : ℕ
  pub signature : Text

pub record PrePrepareMsg (fl : Floats) : Type 0 where
  pub header : Header
  pub request_id : Text
  pub image_hash : Text
  pub probabilities : List fl.Float
  pub predicted_class : ℕ

pub record PrepareMsg (fl : Floats) : Type 0 where
  pub header : Header
  pub request_id : Text
  pub probabilities : List fl.Float
  pub predicted_class : ℕ

pub record CommitMsg : Type 0 where
  pub header : Header
  pub request_id : Text
  pub consensus_class : ℕ

pub record ViewChangeMsg : Type 0 where
  pub header : Header
  pub new_view : ℕ
  pub last_seq : ℕ

pub record NewViewMsg : Type 0 where
  pub header : Header
  pub new_view : ℕ
  pub view_change_msgs : List ViewChangeMsg

pub data Message (fl : Floats) : Type 0 where
  pre_prepare : PrePrepareMsg fl → Message fl
  prepare : PrepareMsg fl → Message fl
  commit : CommitMsg → Message fl
  view_change : ViewChangeMsg → Message fl
  new_view : NewViewMsg → Message fl

abbrev pub header_of : {fl : Floats} → Message fl → Header
header_of (pre_prepare m) = m.header
header_of (prepare m) = m.header
header_of (commit m) = m.header
header_of (view_change m) = m.header
header_of (new_view m) = m.header
