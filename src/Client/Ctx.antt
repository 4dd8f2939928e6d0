-- ===== src/Client/Ctx.antt =====
-- src/libmunge/ctx.c: the context of a client's calls. A string of a context is in memory of its own.
-- An option of munge_ctx_set with its argument is a value of one type, and the pointers that
-- munge_ctx_get writes through are its result; whether `strdup` succeeds is an argument.
use munge.Prelude.{
  ℕ, ◌==◌, ◌&&◌, ltb, not, List, [], ◌∷◌, length, Bool, true, false, Option, none, some,
  if◌then◌else◌,
}
use munge.Clock.{ℤ, pos, negsuc}
use munge.Message.{emunge_success, emunge_bad_arg, emunge_no_memory, munge_any}
use munge.Message.Transport.{emunge_bad_length}

-- `struct munge_ctx`; the two flags are fields.
pub record Ctx : Type 0 where
  pub cipher : ℤ
  pub mac : ℤ
  pub zip : ℤ
  pub realm_str : Option (List ℕ)
  pub ttl : ℤ
  pub addr : List ℕ
  pub time0 : ℤ
  pub time1 : ℤ
  pub auth_uid : ℕ
  pub auth_gid : ℕ
  pub socket_str : Option (List ℕ)
  pub error_num : ℕ
  pub error_str : Option (List ℕ)
  pub ignore_ttl : Bool
  pub ignore_replay : Bool

-- `munge_ctx_create`: memory for the context and for the name of the socket.
unfoldable pub ctx_create : Bool → Bool → List ℕ → Option Ctx
ctx_create mem mem_socket socket_name =
    if mem && mem_socket
    then some (record {
      cipher = pos 1;
      mac = pos 1;
      zip = pos 1;
      realm_str = none;
      ttl = pos 0;
      addr = 0 ∷ 0 ∷ 0 ∷ 0 ∷ [];
      time0 = pos 0;
      time1 = pos 0;
      auth_uid = munge_any;
      auth_gid = munge_any;
      socket_str = some socket_name;
      error_num = emunge_success;
      error_str = none;
      ignore_ttl = false;
      ignore_replay = false;
    })
    else none

-- What `munge_ctx_copy` gives: NULL, a copy, or the behaviour of `strdup` of a null pointer.
pub data Copy : Type 0 where
  null undefined : Copy
  copied : Ctx → Copy

unfoldable pub copy_socket : Bool → Ctx → Option (List ℕ) → Copy
copy_socket mem_socket c none = undefined
copy_socket mem_socket c (some s) =
    if mem_socket then copied (record c { error_num = emunge_success; error_str = none }) else null

unfoldable pub copy_realm : Bool → Bool → Ctx → Option (List ℕ) → Copy
copy_realm mem_realm mem_socket c none = copy_socket mem_socket c c.socket_str
copy_realm mem_realm mem_socket c (some s) =
    let rest = copy_socket mem_socket c c.socket_str in if mem_realm then rest else null

unfoldable pub ctx_copy : Bool → Bool → Bool → Option Ctx → Copy
ctx_copy mem mem_realm mem_socket none = null
ctx_copy mem mem_realm mem_socket (some c) =
    let rest = copy_realm mem_realm mem_socket c c.realm_str in if mem then rest else null

-- `munge_opt_t`, and any other number.
pub data Opt : Type 0 where
  opt_cipher opt_mac opt_zip opt_realm opt_ttl opt_addr4 opt_encode_time opt_decode_time : Opt
  opt_socket opt_uid opt_gid opt_ignore_ttl opt_ignore_replay opt_unknown : Opt

-- The argument of an option.
pub data Value : Type 0 where
  int : ℤ → Value
  string : Option (List ℕ) → Value
  address : List ℕ → Value
  id : ℕ → Value

-- The error of the last call is dropped.
unfoldable pub clear_error : Ctx → Ctx
clear_error c = record c { error_num = emunge_success; error_str = none }

unfoldable pub with_error : ℕ → Ctx → ℕ × Ctx
with_error e c = (e, record c { error_num = e })

unfoldable pub int_of_bool : Bool → ℤ
int_of_bool b = if b then pos 1 else pos 0

unfoldable pub value_of : Opt → Ctx → Option Value
value_of opt_cipher c = some (int c.cipher)
value_of opt_mac c = some (int c.mac)
value_of opt_zip c = some (int c.zip)
value_of opt_realm c = some (string c.realm_str)
value_of opt_ttl c = some (int c.ttl)
value_of opt_addr4 c = some (address c.addr)
value_of opt_encode_time c = some (int c.time0)
value_of opt_decode_time c = some (int c.time1)
value_of opt_socket c = some (string c.socket_str)
value_of opt_uid c = some (id c.auth_uid)
value_of opt_gid c = some (id c.auth_gid)
value_of opt_ignore_ttl c = some (int (int_of_bool c.ignore_ttl))
value_of opt_ignore_replay c = some (int (int_of_bool c.ignore_replay))
value_of opt_unknown c = none

-- `munge_ctx_get`: the error code, the context, and what is written.
unfoldable pub get_value : Ctx → Option Value → ℕ × Ctx × Option Value
get_value c none = (emunge_bad_arg, record c { error_num = emunge_bad_arg }, none)
get_value c (some v) = (emunge_success, c, some v)

unfoldable pub ctx_get : Opt → Ctx → ℕ × Ctx × Option Value
ctx_get opt c = get_value (clear_error c) (value_of opt c)

unfoldable pub is_true : ℤ → Bool
is_true (pos n) = not (n == 0)
is_true (negsuc n) = true

-- The case MUNGE_OPT_REALM of `munge_ctx_set`, and below MUNGE_OPT_SOCKET.
unfoldable pub store_realm : Bool → Ctx → Option (List ℕ) → ℕ × Ctx
store_realm mem c none = (emunge_success, record c { realm_str = none })
store_realm mem c (some s) =
    if ltb 255 (length s)
    then with_error emunge_bad_length c
    else if mem
    then (emunge_success, record c { realm_str = some s })
    else with_error emunge_no_memory c

unfoldable pub store_socket : Bool → Ctx → Option (List ℕ) → ℕ × Ctx
store_socket mem c none = (emunge_success, record c { socket_str = none })
store_socket mem c (some s) =
    if mem
    then (emunge_success, record c { socket_str = some s })
    else with_error emunge_no_memory c

-- An option with its argument; four options cannot be set.
pub data Setting : Type 0 where
  set_cipher set_mac set_zip set_ttl set_ignore_ttl set_ignore_replay : ℤ → Setting
  set_realm_str set_socket_str : Option (List ℕ) → Setting
  set_uid set_gid : ℕ → Setting
  set_addr4 set_encode_time set_decode_time set_unknown : Setting

-- The `switch` of `munge_ctx_set`; `MUNGE_TTL_MAXIMUM` is -1 itself, so that a time-to-live is stored
-- as it is given.
unfoldable pub set_value : Bool → Ctx → Setting → ℕ × Ctx
set_value mem c (set_cipher n) = (emunge_success, record c { cipher = n })
set_value mem c (set_mac n) = (emunge_success, record c { mac = n })
set_value mem c (set_zip n) = (emunge_success, record c { zip = n })
set_value mem c (set_realm_str s) = store_realm mem c s
set_value mem c (set_ttl n) = (emunge_success, record c { ttl = n })
set_value mem c (set_socket_str s) = store_socket mem c s
set_value mem c (set_uid n) = (emunge_success, record c { auth_uid = n })
set_value mem c (set_gid n) = (emunge_success, record c { auth_gid = n })
set_value mem c (set_ignore_ttl n) = (emunge_success, record c { ignore_ttl = is_true n })
set_value mem c (set_ignore_replay n) = (emunge_success, record c { ignore_replay = is_true n })
set_value mem c set_addr4 = with_error emunge_bad_arg c
set_value mem c set_encode_time = with_error emunge_bad_arg c
set_value mem c set_decode_time = with_error emunge_bad_arg c
set_value mem c set_unknown = with_error emunge_bad_arg c

-- `munge_ctx_set`
unfoldable pub ctx_set : Bool → Setting → Ctx → ℕ × Ctx
ctx_set mem x c = set_value mem (clear_error c) x

-- `_munge_ctx_set_err`
unfoldable pub ctx_set_err : Option Ctx → ℕ → Option (List ℕ) → ℕ × Option Ctx
ctx_set_err none e s = (e, none)
ctx_set_err (some c) e s =
    if (c.error_num == emunge_success) && not (e == emunge_success)
    then (e, some (record c { error_num = e; error_str = s }))
    else (c.error_num, some c)
