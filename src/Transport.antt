-- ===== src/Transport.antt =====
-- packages/browser-client/src/http-transport.ts: the browser's side of the HTTP API. `fetch`,
-- `JSON.parse` and the checks against the protocol's schemas are parameters.
pub mod EventStream
pub mod Delivery
pub mod Pages
use formation_chat_core.Prelude.{
  ℕ, zero, suc, ◌+◌, Bool, true, false, ◌&&◌, ◌||◌, Option, none, some, List, [], ◌∷◌, ◌++◌, map,
  Result, ok, err, ◌>>=◌, ◌>>◌, guard, or_throw, leb, ◌==◌, if◌then◌else◌, any, order_by, is_some,
  same_text, Json, Fields, get_field, as_text, object, null, boolean, natural, other_number, string,
  array, holds, by_key,
}
use formation_chat_core.Database.Rows.{Text}
use formation_chat_core.Message.{MessageView}
use formation_chat_core.Message.Cursor.{decimal}
use formation_chat_core.Client.{by_id}

pub record HttpChatError : Type 0 where
  pub code : Text
  -- `none` is the text 'The chat service request failed.'.
  pub message : Option Text
  pub status : ℕ
  pub correlation_id : Option Text

-- The field `retryable`, which the constructor computes.
abbrev pub retryable : HttpChatError → Bool
retryable e = e.status == 408 || e.status == 429 || leb 500 e.status

pub data TransportError : Type 0 where
  http : HttpChatError → TransportError
  invalid_json : (status : ℕ) → TransportError
  invalid_response invalid_request bootstrap_required repeated_cursor too_many_requests :
      TransportError

unfoldable pub is_authentication_error : TransportError → Bool
is_authentication_error (http e) = e.status == 401
is_authentication_error _ = false

-- The routes that the transport calls, with what their addresses hold.
pub data Route : Type 0 where
  sessions conversations : Route
  conversation new_message email_handoffs cancel_run retry_run : (conversation_id : ℕ) → Route
  message_page : (conversation_id : ℕ) → (cursor : Option Text) → Route
  input : (conversation_id request_id : ℕ) → Route

pub record Request : Type 0 where
  pub route : Route
  pub authorization : Option Text
  pub idempotency_key : Option ℕ
  pub body : Option Json

pub record Response : Type 0 where
  pub status : ℕ
  pub body : Text

-- `response.ok`.
abbrev pub is_ok : Response → Bool
is_ok response = leb 200 response.status && leb response.status 299

-- An empty body is `undefined`.
unfoldable pub read_json : (Text → Option Json) → Response → Result TransportError (Option Json)
read_json parse response = elim response.body [
  | [] ↦ ok none
  | c ∷ cs ↦ elim (parse (c ∷ cs)) [
    | none ↦ err (invalid_json response.status)
    | some value ↦ ok (some value)
  ]
]

abbrev pub error_name : Text
error_name = b'e' ∷ b'r' ∷ b'r' ∷ b'o' ∷ b'r' ∷ []

abbrev pub code_name : Text
code_name = b'c' ∷ b'o' ∷ b'd' ∷ b'e' ∷ []

abbrev pub message_name : Text
message_name = b'm' ∷ b'e' ∷ b's' ∷ b's' ∷ b'a' ∷ b'g' ∷ b'e' ∷ []

abbrev pub correlation_name : Text
correlation_name =
    b'c' ∷ b'o' ∷ b'r' ∷ b'r' ∷ b'e' ∷ b'l' ∷ b'a' ∷ b't' ∷ b'i' ∷ b'o' ∷ b'n' ∷ b'I' ∷ b'd' ∷ []

-- `HTTP_${status}`.
abbrev pub http_code : ℕ → Text
http_code status = b'H' ∷ b'T' ∷ b'T' ∷ b'P' ∷ b'_' ∷ decimal status

-- A field of the error's record: nothing where the value is not an object that has one.
abbrev pub field_of : Text → Option Json → Option Json
field_of name (some (object fields)) = get_field name fields
field_of name _ = none

abbrev pub text_or : Option Text → Text → Text
text_or (some text) fallback = text
text_or none fallback = fallback

unfoldable pub http_error : Response → Option Json → HttpChatError
http_error response value =
    let error = field_of error_name value in
    record {
      code = text_or (as_text (field_of code_name error)) (http_code response.status);
      message = as_text (field_of message_name error);
      status = response.status;
      correlation_id = as_text (field_of correlation_name error);
    }

-- The token without which no request with authentication is sent: an empty one is none.
unfoldable pub authorization_header : Option Text → Result TransportError Text
authorization_header none = err bootstrap_required
authorization_header (some []) = err bootstrap_required
authorization_header (some (c ∷ cs)) = ok (c ∷ cs)

-- What a call to the network answers.
abbrev pub Fetch : Type 0
Fetch = Request → Response

module _ (parse : Text → Option Json) where
  unfoldable pub read_response :
      {A : Type 0} → (Option Json → Option A) → Response → Result TransportError A
  read_response check response = do
    value ← read_json parse response
    guard (is_ok response) (http (http_error response value))
    or_throw (check value) invalid_response

  unfoldable pub request_json :
      {A : Type 0}
      → Fetch
      → (token : Option Text) → (Option Json → Option A)
      → Route
      → (idempotency_key : Option ℕ) → (body : Option Json) → Result TransportError A
  request_json fetch token check route idempotency_key body = authorization_header token >>= λ t.
      read_response check (
        fetch (record {
          route = route;
          authorization = some t;
          idempotency_key = idempotency_key;
          body = body;
        }))

  -- The session request, which is sent without a token, and the token that the transport keeps.
  unfoldable pub bootstrap :
      {A : Type 0}
      → Fetch
      → (Option Json → Option A)
      → (access_token : A → Text) → (idempotency_key : ℕ) → (body : Json) → (token : Option Text)
      → Result TransportError (A × Option Text)
  bootstrap fetch check access_token idempotency_key body token = do
    session ← read_response check (
        fetch (record {
          route = sessions;
          authorization = none;
          idempotency_key = some idempotency_key;
          body = some body;
        }))
    ok (session, some (access_token session))

  -- A command whose body the transport checks before it is sent.
  unfoldable pub send_checked :
      {A : Type 0}
      → Fetch
      → (token : Option Text) → (check_body : Json → Bool) → (Option Json → Option A)
      → Route
      → (idempotency_key : ℕ) → (body : Json) → Result TransportError A
  send_checked fetch token check_body check route idempotency_key body =
      guard (check_body body) invalid_request
      >> request_json fetch token check route (some idempotency_key) (some body)

  -- The body `{}` of a command that has none.
  abbrev pub empty_body : Json
  empty_body = object Fields.no_fields

  unfoldable pub create_conversation :
      {A : Type 0} → Fetch → Option Text → (Option Json → Option A) → ℕ → Result TransportError A
  create_conversation fetch token check idempotency_key =
      request_json fetch token check conversations (some idempotency_key) (some empty_body)

  unfoldable pub get_conversation :
      {A : Type 0} → Fetch → Option Text → (Option Json → Option A) → ℕ → Result TransportError A
  get_conversation fetch token check conversation_id =
      request_json fetch token check (conversation conversation_id) none none

  unfoldable pub cancel :
      {A : Type 0}
      → Fetch
      → Option Text
      → (Option Json → Option A)
      → ℕ
      → ℕ
      → Result TransportError A
  cancel fetch token check conversation_id idempotency_key =
      request_json fetch token check (cancel_run conversation_id) (some idempotency_key)
        (some empty_body)

  -- The body of a refused retry is read; that of an accepted one is not.
  unfoldable pub retry : Fetch → Option Text → ℕ → ℕ → Result TransportError (Unit {0})
  retry fetch token conversation_id idempotency_key = authorization_header token >>= λ t.
      let response = fetch (record {
        route = retry_run conversation_id;
        authorization = some t;
        idempotency_key = some idempotency_key;
        body = some empty_body;
      }) in
      let refused = read_json parse response >>= λ value. err (http (http_error response value)) in
      if is_ok response then ok tt else refused

-- The page of the protocol: a cursor is there exactly where there is more.
pub data Pagination : Type 0 where
  last_page : Pagination
  more : (next_cursor : Text) → Pagination

pub record Page : Type 0 where
  pub messages : List MessageView
  pub pagination : Pagination

-- `if (cursor) query.set('cursor', cursor)`.
abbrev pub query_cursor : Option Text → Option Text
query_cursor (some (c ∷ cs)) = some (c ∷ cs)
query_cursor _ = none

-- The last message with an identifier counts, and the messages are in the order of their sequences.
unfoldable pub canonical_page : List MessageView → List MessageView
canonical_page messages =
    order_by (by_key (λ (m : MessageView). m.sequence))
      (map (λ (e : ℕ × MessageView). e.1) (by_id messages []))

-- The loop over the pages: `load` makes the request of a round. The rounds left are the fuel, and
-- the loop throws when they are used up, as the code does.
unfoldable pub list_from :
    (load : ℕ → Option Text → Result TransportError Page)
    → (rounds_left page_number : ℕ) → (cursor : Option Text) → (seen_cursors : List Text)
    → (messages : List MessageView) → Result TransportError (List MessageView)
list_from load zero page_number cursor seen_cursors messages = err too_many_requests
list_from load (suc rounds) page_number cursor seen_cursors messages =
    load page_number (query_cursor cursor) >>= λ page. elim page.pagination [
      | last_page ↦ ok (canonical_page (messages ++ page.messages))
      | more next_cursor ↦ elim (any (same_text next_cursor) seen_cursors) [
        | true ↦ err repeated_cursor
        | false ↦
            list_from load rounds (page_number + 1) (some next_cursor)
              (seen_cursors ++ next_cursor ∷ []) (messages ++ page.messages)
      ]
    ]

-- `listMessages`: the network answers each round's request.
unfoldable pub list_messages :
    (Text → Option Json)
    → (ℕ → Fetch)
    → Option Text
    → (Option Json → Option Page)
    → (max_pagination_requests conversation_id : ℕ) → Result TransportError (List MessageView)
list_messages parse fetch token check max_pagination_requests conversation_id =
    list_from
      (λ page_number cursor.
        request_json parse (fetch page_number) token check (message_page conversation_id cursor)
          none none)
      max_pagination_requests 0 none [] []
