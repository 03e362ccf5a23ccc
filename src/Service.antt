-- ===== src/Service.antt =====
-- internal/service/interface.go: what a service gives to the server.
pub mod Registry
pub mod Order
use kiri_gcp.Prelude.{Option, ℕ, List, [], ◌∷◌}
use kiri_gcp.Text.{Text, str}
use kiri_gcp.Http.{Request, Response}

pub data FidelityClass : Type 0 where
  fidelity_unset fidelity_d fidelity_c fidelity_b fidelity_a : FidelityClass

pub data ImplState : Type 0 where
  state_declared state_generated state_contract_passing : ImplState
  state_behavioral state_integrated state_differential_verify : ImplState

-- The numbers that the constants stand for.
unfoldable pub state_number : ImplState → ℕ
state_number state_declared = 0
state_number state_generated = 1
state_number state_contract_passing = 2
state_number state_behavioral = 3
state_number state_integrated = 4
state_number state_differential_verify = 5

-- The UTF-8 bytes of an em dash.
abbrev pub dash : Text
dash = 0xe2 ∷ 0x80 ∷ 0x94 ∷ []

unfoldable pub fidelity_label : FidelityClass → Text
fidelity_label fidelity_a = str "A"
fidelity_label fidelity_b = str "B"
fidelity_label fidelity_c = str "C"
fidelity_label fidelity_d = str "D"
fidelity_label fidelity_unset = dash

unfoldable pub state_label : ImplState → Text
state_label state_declared = str "Declared"
state_label state_generated = str "Generated"
state_label state_contract_passing = str "Contract"
state_label state_behavioral = str "Behavioral"
state_label state_integrated = str "Integrated"
state_label state_differential_verify = str "DiffVerify"

pub record Meta : Type 0 where
  pub display : Text
  pub category : Text
  pub description : Text
  pub fidelity : FidelityClass
  pub state : ImplState

-- http.HandlerFunc of a service with state `S`: the state after the request, and what is written.
abbrev pub Handler : Type 0 → Type 0
Handler S = Request → S → S × Response

-- One call of Router.Handle.
pub record Route (H : Type 0) : Type 0 where
  pub method : Text
  pub pattern : Text
  pub handler : H

-- Name(), Meta() and RegisterRoutes(r): the calls of r.Handle in their order.
pub record Service (H : Type 0) : Type 0 where
  pub name : Text
  -- Meta() where the service is a Describer.
  pub meta : Option Meta
  pub routes : List (Route H)
