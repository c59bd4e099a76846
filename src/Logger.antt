-- ===== src/Logger.antt =====
-- SharedUtils/Logger.h and Logger.cpp: a line of the log, from `logger.debug()` to the destructor
-- of its LoggerStream, and the ETW provider that it goes to. `std::wstring_convert` and ETW are
-- parameters.
pub mod Lines
use iis_asgi_handler.Prelude.{
  ℕ, Bool, true, false, List, [], ◌∷◌, ◌++◌, Option, Bytes, ◌==◌, if◌then◌else◌, Result, ok, err,
  Error, ◌>>=◌, or_err,
}

-- `std::wstring_convert<std::codecvt_utf8<wchar_t>>`, whose conversions throw a std::range_error.
pub record Converter : Type 0 where
  pub to_bytes : List ℕ → Option Bytes
  pub from_bytes : Bytes → Option (List ℕ)

pub record Etw : Type 1 where
  pub World : Type 0
  pub event_register : World → ℕ × World
  pub event_unregister : ℕ → World → World
  pub event_write_string : ℕ → List ℕ → World → World

-- What is inserted into a stream: a value, as std::ostringstream formats it, or a std::wstring.
pub data Inserted : Type 0 where
  value : Bytes → Inserted
  wstring : List ℕ → Inserted

-- How a statement ends. An exception that leaves a destructor ends the process.
pub data Ending : Type 0 where
  completed threw terminated : Ending

-- What `c_str()` points to, for who reads it up to the first zero.
unfoldable pub c_str : List ℕ → List ℕ
c_str [] = []
c_str (u ∷ units) = let rest = c_str units in if u == 0 then [] else u ∷ rest

module _ (etw : Etw) where
  -- EtwLogger::EtwLogger()
  unfoldable pub etw_logger : etw.World → ℕ × etw.World
  etw_logger w = etw.event_register w

  -- EtwLogger::~EtwLogger()
  unfoldable pub destroy_etw_logger : ℕ → etw.World → etw.World
  destroy_etw_logger etw_handle w = if etw_handle == 0 then w else etw.event_unregister etw_handle w

module _ (convert : Converter) where
  open convert use {to_bytes, from_bytes}

  -- LoggerStream::operator<<(), both of them.
  unfoldable pub insert : Inserted → Bytes → Result Bytes
  insert (value text) sstream = ok (sstream ++ text)
  insert (wstring units) sstream = do
    bytes ← or_err (to_bytes units) Error.runtime_error
    ok (sstream ++ bytes)

  -- The insertions of a statement, up to the first that throws: whether all were made, and the
  -- stream's text by then.
  unfoldable pub insert_all : List Inserted → Bytes → Bool × Bytes
  unfolding insert
  insert_all [] sstream = (true, sstream)
  insert_all (x ∷ xs) sstream = elim (insert x sstream) [
    | err e ↦ (false, sstream)
    | ok text ↦ insert_all xs text
  ]

  module _ (etw : Etw) where
    open etw use {World}

    -- EtwLogger::Log()
    unfoldable pub log : ℕ → Bytes → World → Result World
    log etw_handle msg w = do
      wmsg ← or_err (from_bytes msg) Error.runtime_error
      ok (etw.event_write_string etw_handle (c_str wmsg) w)

    -- LoggerStream::~LoggerStream(), at the end of the statement or as its exception passes.
    unfoldable pub destroyed : Bool → Result World → World → Ending × World
    destroyed all_made (err e) w = (terminated, w)
    destroyed all_made (ok w') w = (if all_made then completed else threw, w')

    -- `logger.debug() << x << ... ;`
    unfoldable pub debug : ℕ → List Inserted → World → Ending × World
    debug etw_handle xs w =
        let (all_made, sstream) = insert_all xs [] in
        destroyed all_made (log etw_handle sstream w) w
