-- ===== src/Connection.antt =====
-- The class `Service` of web/src/App.tsx, which keeps a socket to the server, with `wsSafeClose` of
-- web/src/common/DomTools.ts.
pub mod Retry
mod Tests
use web_ssh_tool.Common.{
  ℕ, ◌+◌, Bool, true, false, Option, none, some, List, [], ◌∷◌, if◌then◌else◌,
}

-- `readyState`.
pub data Ready : Type 0 where
  connecting open_ closing closed : Ready

-- `_mounted` and `_connectionMayBeLost`; the state of `_ws`; whether an `_onClose` waits for its
-- delay; the id of the shown `AppServer` and the next one; and the number of sockets created.
pub record Service : Type 0 where
  pub mounted : Bool
  pub may_be_lost : Bool
  pub socket : Ready
  pub delayed : Bool
  pub server : Option ℕ
  pub next_id : ℕ
  pub sockets : ℕ

-- `wsSafeClose(ws)`.
pub ws_safe_close : Ready → Ready
ws_safe_close closed = closed
ws_safe_close closing = closing
ws_safe_close connecting = closing
ws_safe_close open_ = closing

-- `_connect`.
connect : Service → Service
connect s = record s { socket = connecting; sockets = s.sockets + 1 }

-- The service before `componentDidMount`, and after it.
pub create : ℕ → Service
unfolding connect
create next = connect (record {
  mounted = true;
  may_be_lost = false;
  socket = closed;
  delayed = false;
  server = none;
  next_id = next;
  sockets = 0;
})

-- `_onOpen`; the constructor of `AppServer` takes the next id.
on_open : Service → Service
on_open s = record s {
  may_be_lost = false;
  server = some s.next_id;
  next_id = s.next_id + 1;
  socket = open_;
}

-- `_onError`.
on_error : Service → Service
unfolding ws_safe_close
on_error s = record s { socket = ws_safe_close s.socket }

-- `_onClose`, up to the delay if there is one.
on_close : Service → Service
unfolding connect
on_close s =
    let s' = record s { socket = closed } in
    if s.mounted
    then (if s.may_be_lost
        then record s' { server = none; delayed = true }
        else connect (record s' { server = none; may_be_lost = true }))
    else s'

-- The rest of `_onClose`, after the delay.
on_delay : Service → Service
unfolding connect
on_delay s =
    let s' = record s { delayed = false } in
    if s.mounted then connect (record s' { may_be_lost = true }) else s'

-- `componentWillUnmount`.
unmount : Service → Service
unfolding ws_safe_close
unmount s = record s { mounted = false; socket = ws_safe_close s.socket }

pub data Event : Type 0 where
  opened failed ended delay_over unmounted : Event

-- The events that can come: a socket opens while it connects, fails while it is not closing, and
-- ends once; a delay is over if there is one.
abbrev pub is_enabled : Event → Service → Bool
is_enabled opened s = elim s.socket [ connecting ↦ true | _ ↦ false ]
is_enabled failed s = elim s.socket [ connecting ↦ true | open_ ↦ true | _ ↦ false ]
is_enabled ended s = elim s.socket [ closed ↦ false | _ ↦ true ]
is_enabled delay_over s = s.delayed
is_enabled unmounted s = s.mounted

pub handle : Event → Service → Service
unfolding on_open on_error on_close on_delay unmount
handle opened s = on_open s
handle failed s = on_error s
handle ended s = on_close s
handle delay_over s = on_delay s
handle unmounted s = unmount s

pub step : Event → Service → Service
unfolding handle
step e s = if is_enabled e s then handle e s else s

pub run : List Event → Service → Service
run [] s = s
run (e ∷ es) s = run es (step e s)
