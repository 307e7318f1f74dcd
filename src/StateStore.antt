-- ===== src/StateStore.antt =====
-- server/app/state_store.py: JSON files and the freshness of a state.
use ups_orchestrator.Prelude.{
  ℕ, ◌-◌, ◌≡◌, Bool, true, false, ◌&&◌, Option, none, some, arith, ltb, leb,
}

-- What stands at a path: nothing, or a text.
module _ {Text A : Type 0} (loads : Text → Option A) (dumps : A → Text) where
  parse_or : A → Option A → A
  parse_or default none = default
  parse_or default (some a) = a

  -- `read_json`; `loads` is `none` where `json.loads` raises.
  unfoldable pub read_json : Option Text → A → A
  unfolding parse_or
  read_json none default = default
  read_json (some text) default = parse_or default (loads text)

  -- `write_json`: the new text is written beside the file and moved over it in one step, so that the
  -- file holds the old text or the new one. A failure of `write_text` or `replace` raises, and leaves
  -- the old text.
  unfoldable pub write_json : Bool → Option Text → A → Option Text
  write_json true old a = some (dumps a)
  write_json false old a = old

  -- What is written is read back, if `json.loads` undoes `json.dumps`; a write that fails leaves what
  -- was there; and where nothing is there, or nothing that parses, the default is read.
  read_json-write_json :
      ((a : A) → loads (dumps a) ≡ some a)
      → (old : Option Text) (a default : A)
      → (read_json (write_json true old a) default ≡ a)
        × (read_json (write_json false old a) default ≡ read_json old default)
        × (read_json none default ≡ default)
  unfolding read_json write_json
  read_json-write_json undo old a default = ground (arith, undo a)

-- `state_is_fresh`, with the clock's reading and STATE_MAX_AGE. A state from the future is fresh, and
-- the subtraction that stops at 0 says so too.
unfoldable pub state_is_fresh : ℕ → ℕ → ℕ → Bool
state_is_fresh now max_age last_seen = ltb 0 last_seen && leb (now - last_seen) max_age
