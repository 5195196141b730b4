-- ===== src/Request.antt =====
-- src/request.rs: the immutable request, and the state that the filters pass along.
pub mod Paths
pub mod Body
use myth.Prelude.{
  ℕ, zero, suc, ◌+◌, ◌≡◌, Bool, Option, none, some, List, [], ◌∷◌, ◌++◌, length, Result, ok, err,
  if◌then◌else◌, ◌==◌,
}
use myth.Text.{Str, len, slice_from, slice_to}
use myth.Http.{Http, BodyEvent, chunk, failed, wait, endless, get_header}

module _ (H : Http) where
  pub record Request : Type 0 where
    pub method : H.Method
    pub uri : H.Uri
    pub version : H.Version
    pub headers : H.HeaderMap
    pub remote_addr : H.SocketAddr

  -- `body::Error` of src/body.rs
  pub record BodyError : Type 0 where
    pub inner : Option H.HyperError

  pub data BodyState : Type 0 where
    pending : List (BodyEvent H.HyperError) → List (List ℕ) → ℕ → BodyState
    finished : List (List ℕ) → ℕ → BodyState
    error : BodyState

  pub record RequestState : Type 0 where
    pub body : BodyState
    pub current_path_index : ℕ
    pub on_upgrade : Option H.OnUpgrade

  -- `Poll<Result<(&[Bytes], usize), body::Error>>`; `waiting` is `Poll::Pending`
  pub data BodyPoll : Type 0 where
    waiting : BodyPoll
    answer : Result (List (List ℕ) × ℕ) BodyError → BodyPoll

-- The loop of `poll_body` over chunks that are ready, of which the empty ones are skipped.
unfoldable pub receive_chunks : List (List ℕ) → List (List ℕ) → ℕ → List (List ℕ) × ℕ
receive_chunks [] bytes len = (bytes, len)
receive_chunks ([] ∷ chunks) bytes len = receive_chunks chunks bytes len
receive_chunks ((b ∷ buf) ∷ chunks) bytes len =
    receive_chunks chunks (bytes ++ (b ∷ buf) ∷ []) (len + length (b ∷ buf))

module _ {H : Http} where
  unfoldable pub header : Request H → H.HeaderName → Option H.HeaderValue
  header r name = get_header H name r.headers

  unfoldable pub header_all : Request H → H.HeaderName → List H.HeaderValue
  header_all r name = H.get_all name r.headers

  -- `Request::full_path`
  abbrev pub full_path : Request H → Str
  full_path r = H.path r.uri

  -- `RequestState::new`
  unfoldable pub new_state : H.Body → Option H.OnUpgrade → RequestState H
  new_state body on_upgrade = record {
    body = pending (H.events body) [] 0;
    current_path_index = 0;
    on_upgrade = on_upgrade;
  }

  -- `RequestState::on_upgrade`: the value is taken out
  unfoldable pub take_on_upgrade : RequestState H → RequestState H × Option H.OnUpgrade
  take_on_upgrade st = (record st { on_upgrade = none }, st.on_upgrade)

  -- The loop of `poll_body` over the events that the stream has ready.
  unfoldable pub poll_stream :
      List (BodyEvent H.HyperError) → List (List ℕ) → ℕ → BodyState H × BodyPoll H
  unfolding receive_chunks
  poll_stream [] bytes len = (finished bytes len, answer (ok (bytes, len)))
  poll_stream (chunk [] ∷ stream) bytes len = poll_stream stream bytes len
  poll_stream (chunk (b ∷ buf) ∷ stream) bytes len =
      poll_stream stream (bytes ++ (b ∷ buf) ∷ []) (len + length (b ∷ buf))
  poll_stream (failed e ∷ stream) bytes len = (error, answer (err (record { inner = some e })))
  poll_stream (wait ∷ stream) bytes len = (pending stream bytes len, waiting)
  poll_stream (endless chunks ∷ stream) bytes len =
      let (bytes, len) = receive_chunks (chunks zero) bytes len in
      (pending (endless (λ n. chunks (suc n)) ∷ stream) bytes len, waiting)

  unfoldable pub poll_body_state : BodyState H → BodyState H × BodyPoll H
  unfolding poll_stream
  poll_body_state (pending stream bytes len) = poll_stream stream bytes len
  poll_body_state (finished bytes len) = (finished bytes len, answer (ok (bytes, len)))
  poll_body_state error = (error, answer (err (record { inner = none })))

  unfoldable pub poll_body : RequestState H → RequestState H × BodyPoll H
  unfolding poll_body_state poll_stream
  poll_body st = let (body, result) = poll_body_state st.body in (record st { body = body }, result)

  -- `none` is the panic of the slice
  unfoldable pub current_path : RequestState H → Request H → Option Str
  current_path st r = slice_from (full_path r) st.current_path_index

  unfoldable pub previous_path : RequestState H → Request H → Option Str
  previous_path st r = slice_to (full_path r) st.current_path_index

  unfoldable pub incr_current_path_index : ℕ → RequestState H → RequestState H
  incr_current_path_index index st = record st {
    current_path_index = st.current_path_index + index;
  }

  unfoldable pub end_current_path_index : Request H → RequestState H → RequestState H
  end_current_path_index r st = record st { current_path_index = len (full_path r) }
