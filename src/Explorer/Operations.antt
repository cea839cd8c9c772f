-- ===== src/Explorer/Operations.antt =====
-- The connecting operations of `MqttExplorerService` and the other events of a client. A method that waits is
-- split where it waits: `connect` into `connect_begin`, `connect_open` and its two ends.
use mqttctl.Prelude.{
  ℕ, Text, codes, ◌++◌, ◌==◌, trim, is_empty, Bool, true, false, Option, none, some, [], or_else,
  if◌then◌else◌,
}
use mqttctl.Explorer.{
  Env, MqttAuthMode, configured_admin, dynsec_client, custom, disconnected, connecting, connected,
  error, MqttConnectionStatus, MqttExplorerState, Service, store, get_or_create_session, snapshot,
  schedule_emit, set_connection_status,
}
use mqttctl.Explorer.Messages.{is_current}

-- `AppError`, by the fields that tell the failures apart.
pub data ExplorerError : Type 0 where
  not_connected : ExplorerError
  operation_failed : Text → ExplorerError

pub data Result {ℓ} (A : Type ℓ) : Type ℓ where
  ok : A → Result A
  err : ExplorerError → Result A

pub record ConnectInput : Type 0 where
  pub host : Text
  pub port : ℕ
  pub tls : Bool
  pub auth_mode : MqttAuthMode
  pub username : Option Text
  pub password : Option Text
  pub client_id : Option Text

pub record Credentials : Type 0 where
  pub username : Text
  pub password : Option Text
  pub client_id : Text

-- What the configuration says of the broker's administrator.
pub record BrokerSecrets : Type 0 where
  pub admin_username : Text
  pub admin_password : Text
  pub mqtt_client_id : Text

-- `value?.trim() || fallback`
abbrev pub trim_or : Option Text → Text → Text
trim_or none fallback = fallback
trim_or (some v) fallback = if is_empty (trim v) then fallback else trim v

-- `value?.trim() ?? ''`
abbrev pub trimmed : Option Text → Text
trimmed none = []
trimmed (some v) = trim v

-- `value?.trim() || undefined`
abbrev pub non_blank : Option Text → Option Text
non_blank none = none
non_blank (some v) = if is_empty (trim v) then none else some (trim v)

unfoldable pub resolve_credentials : BrokerSecrets → ConnectInput → Credentials
resolve_credentials broker input = elim input.auth_mode [
  | configured_admin ↦ record {
    username = broker.admin_username;
    password = some broker.admin_password;
    client_id = trim_or input.client_id broker.mqtt_client_id;
  }
  | dynsec_client ↦ record {
    username = trimmed input.username;
    password = elim (non_blank input.password) [
      | some password ↦ some password
      | none ↦
          if trimmed input.username == broker.admin_username
          then some broker.admin_password
          else none
    ];
    client_id = trimmed input.client_id;
  }
  | custom ↦ record {
    username = trimmed input.username;
    password = input.password;
    client_id = trimmed input.client_id;
  }
]

-- What a caller of a method gets, and the service after it.
abbrev pub Reply : Type 0
Reply = Result MqttExplorerState × Service

module _ (env : Env) where
  -- The first part of `disconnectClient`: the client is let go of, and then ended.
  unfoldable pub release_client : ℕ → Service → Service
  release_client id w = store id (record (w.objects id) { client = none }) w

  -- Its second part, after the client has ended; an error in that is only logged.
  unfoldable pub disconnect_done : ℕ → Text → Text → Text → Service → Service
  disconnect_done id key reason now w = schedule_emit env key true (
      set_connection_status id
        (record ((w.objects id).connection) {
          state = disconnected;
          connected = false;
          message = some reason;
        })
        now w)

  -- A change of status by an event of the client, if it is the current one.
  unfoldable pub on_status :
      Text → ℕ → (MqttConnectionStatus → MqttConnectionStatus) → Text → Service → Service
  on_status key client patch now w = elim (is_current key client w) [
    | none ↦ w
    | some id ↦
        schedule_emit env key true
          (set_connection_status id (patch (w.objects id).connection) now w)
  ]

  abbrev place : MqttConnectionStatus → Text → Text
  place c port = or_else c.host (codes "null") ++ codes ":" ++ port

  -- `port` is the decimal text of the connection's port.
  unfoldable pub on_connect : Text → ℕ → Text → Text → Service → Service
  on_connect key client port now =
      on_status key client
        (λ c. record c {
          state = connected;
          connected = true;
          message = some (codes "Connected to " ++ place c port ++ codes ".");
          connected_at = some now;
        })
        now

  unfoldable pub on_reconnect : Text → ℕ → Text → Service → Service
  on_reconnect key client now =
      on_status key client
        (λ c. record c {
          state = connecting;
          connected = false;
          message = some (codes "Reconnecting to broker...");
        })
        now

  unfoldable pub on_offline : Text → ℕ → Text → Service → Service
  on_offline key client now =
      on_status key client
        (λ c. record c {
          state = error;
          connected = false;
          message = some (codes "Broker connection went offline.");
        })
        now

  unfoldable pub on_close : Text → ℕ → Text → Service → Service
  on_close key client now =
      on_status key client
        (λ c. record c {
          state = error;
          connected = false;
          message = some (codes "Broker connection closed.");
        })
        now

  unfoldable pub on_error : Text → ℕ → Text → Text → Service → Service
  on_error key client message now =
      on_status key client
        (λ c. record c { state = error; connected = false; message = some message }) now

  -- `connect` up to its first wait.
  unfoldable pub connect_begin : Text → Service → ℕ × Service
  connect_begin key w = let (id, w') = get_or_create_session key w in (id, release_client id w')

  -- From there to the wait for the broker: `client` is the client that was just made.
  unfoldable pub connect_open :
      ℕ → Text → BrokerSecrets → ConnectInput → Text → ℕ → Text → Service → Service
  connect_open id key broker input port client now w =
      let w1 = disconnect_done id key (codes "Preparing new MQTT connection.") now w in
      let w2 =
        store id (record (w1.objects id) { messages = []; total_messages = 0; subscriptions = [] })
          w1 in
      let credentials = resolve_credentials broker input in
      let w3 = schedule_emit env key true (
        set_connection_status id
          (record ((w2.objects id).connection) {
            state = connecting;
            connected = false;
            host = some (trim input.host);
            port = some input.port;
            tls = input.tls;
            auth_mode = some input.auth_mode;
            username = some (trim credentials.username);
            client_id = some (trim credentials.client_id);
            connected_at = none;
            message =
                some
                  (codes "Connecting to " ++ trim input.host ++ codes ":" ++ port ++ codes "...");
          })
          now w2) in
      store id (record (w3.objects id) { client = some client }) w3

  -- The broker has accepted the client. The events are bound, and what is subscribed by now is
  -- subscribed again, which changes nothing here.
  unfoldable pub connect_ready : ℕ → Text → ConnectInput → Text → Text → Service → Reply
  connect_ready id key input port now w =
      let w' = schedule_emit env key true (
        set_connection_status id
          (record ((w.objects id).connection) {
            state = connected;
            connected = true;
            message =
                some (codes "Connected to " ++ trim input.host ++ codes ":" ++ port ++ codes ".");
            connected_at = some now;
          })
          now w) in
      (ok (snapshot env (w'.objects id)), w')

  -- The broker has refused, or the wait ran out, or subscribing again failed.
  unfoldable pub connect_failed : ℕ → Text → Text → Text → Service → Reply
  connect_failed id key message now w =
      let w' = store id (record (w.objects id) { client = none }) w in
      (
        err (operation_failed message),
        schedule_emit env key true (
            set_connection_status id
              (record ((w'.objects id).connection) {
                state = error;
                connected = false;
                message = some message;
              })
              now w'),
      )
