-- ===== src/Packet/Forms/RoundTrip.antt =====
-- Forms: a fresh packet is read back as it was written, field by field.
use gophertunnel.Prelude.{Bool, [], ℕ}
use gophertunnel.Io.Sim.{Sim, step, done}
use gophertunnel.Io.Reader.{reader}
use gophertunnel.Io.Writer.{writer}
use gophertunnel.Io.Prims.{uint8-Sim, varuint32-Sim, string-Sim, byte_slice-Sim}
use gophertunnel.Io.Values.{IsU32, IsText, IsOptional, optional_func-Sim}
use gophertunnel.Packet.Forms.{
  ModalFormRequest, new_modal_form_request, marshal_modal_form_request, ModalFormResponse,
  new_modal_form_response, marshal_modal_form_response, ToastRequest, new_toast_request,
  marshal_toast_request,
}

-- ModalFormRequest
pub record IsModalFormRequest (pk : ModalFormRequest) : Type 0 where
  pub form_id : IsU32 pk.form_id
  pub form_data : IsText pk.form_data

pub marshal_modal_form_request-Sim :
    (limits : Bool) (pk : ModalFormRequest)
    → IsModalFormRequest pk
    → Sim 1
        (marshal_modal_form_request writer pk)
        (marshal_modal_form_request (reader limits) new_modal_form_request)
        pk
unfolding marshal_modal_form_request
marshal_modal_form_request-Sim limits pk h =
    step _ _ (varuint32-Sim _ _ h.form_id) (step _ _ (byte_slice-Sim _ _ h.form_data) done)

-- ModalFormResponse
pub record IsModalFormResponse (pk : ModalFormResponse) : Type 0 where
  pub form_id : IsU32 pk.form_id
  pub response_data : IsOptional IsText [] pk.response_data
  pub cancel_reason : IsOptional (λ (v : ℕ). Unit {0}) 0 pk.cancel_reason

pub marshal_modal_form_response-Sim :
    (limits : Bool) (pk : ModalFormResponse)
    → IsModalFormResponse pk
    → Sim 1
        (marshal_modal_form_response writer pk)
        (marshal_modal_form_response (reader limits) new_modal_form_response)
        pk
unfolding marshal_modal_form_response
marshal_modal_form_response-Sim limits pk h = step _ _ (varuint32-Sim _ _ h.form_id) (
    step _ _
      (optional_func-Sim IsText [] _ _ (λ v h. byte_slice-Sim v _ h) limits _ _ h.response_data)
      (step _ _
        (optional_func-Sim (λ (v : ℕ). Unit {0}) 0 _ _ (λ v h. uint8-Sim v _) limits _ _
          h.cancel_reason)
        done))

-- ToastRequest
pub record IsToastRequest (pk : ToastRequest) : Type 0 where
  pub title : IsText pk.title
  pub message : IsText pk.message

pub marshal_toast_request-Sim :
    (limits : Bool) (pk : ToastRequest)
    → IsToastRequest pk
    → Sim 1
        (marshal_toast_request writer pk)
        (marshal_toast_request (reader limits) new_toast_request)
        pk
unfolding marshal_toast_request
marshal_toast_request-Sim limits pk h =
    step _ _ (string-Sim _ _ h.title) (step _ _ (string-Sim _ _ h.message) done)
