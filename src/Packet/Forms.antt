-- ===== src/Packet/Forms.antt =====
-- The packets of forms (minecraft/protocol/packet): their structs and their
-- Marshal functions, which serve both directions.
pub mod RoundTrip
use gophertunnel.Prelude.{Bool, true, false, List, [], ℕ}
use gophertunnel.Io.{
  M, ◌>>=◌, pure, Io, Optional, Vec3, Vec2, BlockPos, ChunkPos, SubChunkPos, Rgba, func_slice,
  func_slice_uint32_length, optional_func, replicate,
}

-- packet/modal_form_request.go
pub record ModalFormRequest : Type 0 where
  pub form_id : ℕ
  pub form_data : List ℕ

abbrev pub new_modal_form_request : ModalFormRequest
new_modal_form_request = record { form_id = 0; form_data = [] }

unfoldable pub marshal_modal_form_request : Io → ModalFormRequest → M ModalFormRequest
marshal_modal_form_request io pk = do
  form_id ← io.varuint32 pk.form_id
  form_data ← io.byte_slice pk.form_data
  pure (record { form_id = form_id; form_data = form_data })

-- packet/modal_form_response.go
pub record ModalFormResponse : Type 0 where
  pub form_id : ℕ
  pub response_data : Optional (List ℕ)
  pub cancel_reason : Optional ℕ

abbrev pub new_modal_form_response : ModalFormResponse
new_modal_form_response = record {
  form_id = 0;
  response_data = (record { set = false; val = [] });
  cancel_reason = (record { set = false; val = 0 });
}

unfoldable pub marshal_modal_form_response : Io → ModalFormResponse → M ModalFormResponse
marshal_modal_form_response io pk = do
  form_id ← io.varuint32 pk.form_id
  response_data ← optional_func io pk.response_data io.byte_slice
  cancel_reason ← optional_func io pk.cancel_reason io.uint8
  pure (record { form_id = form_id; response_data = response_data; cancel_reason = cancel_reason })

-- packet/toast_request.go
pub record ToastRequest : Type 0 where
  pub title : List ℕ
  pub message : List ℕ

abbrev pub new_toast_request : ToastRequest
new_toast_request = record { title = []; message = [] }

unfoldable pub marshal_toast_request : Io → ToastRequest → M ToastRequest
marshal_toast_request io pk = do
  title ← io.string pk.title
  message ← io.string pk.message
  pure (record { title = title; message = message })
