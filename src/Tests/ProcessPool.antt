-- ===== src/Tests/ProcessPool.antt =====
-- A reader of arguments that keeps the rules, and quoted arguments.
use iis_asgi_handler.Prelude.{
  ℕ, zero, suc, ◌+◌, ◌-◌, ◌*◌, ◌/◌, ◌%◌, ◌≡◌, refl, sym, ap, ◌∙◌, inl, inr, Bool, Bool-cases, true,
  false, not, ◌&&◌, List, [], ◌∷◌, ◌++◌, append_assoc, append-nil, replicate, ◌==◌, if◌then◌else◌,
  codes, arith, ◌≤◌, ◌<◌, length, some, none, ltb, Error, err, ok,
}
use iis_asgi_handler.ProcessPool.{backslash, quote, needs_quotes, escape_from, escape_argument}
use iis_asgi_handler.ProcessPool.Quoting.{
  Unbroken, ArgumentReader, Rules, prepend, Ends, replicate_shift, read-escape_argument,
}
use iis_asgi_handler.ProcessPool.Monitor.{
  ScopedHandle, Windows, Pool, erase, start_missing, thread_round, thread_main, release, shift,
  create_process, after_wait,
}
use iis_asgi_handler.ProcessPool.Monitored.{
  erase_closes_only_last, thread_round-at_most, thread_main_stuck,
}

-- `n` backslashes were read before the line.
unfoldable pub read_after : Bool → ℕ → List ℕ → List ℕ × List ℕ
read_after quoted n [] = (replicate n backslash, [])
read_after quoted n (c ∷ cs) =
    let after_backslash = read_after quoted (suc n) cs in
    let after_turn = read_after (not quoted) 0 cs in
    let after_other = read_after quoted 0 cs in
    if c == backslash
    then after_backslash
    else if c == quote
    then (if n % 2 == 0
        then prepend (replicate (n / 2) backslash) after_turn
        else prepend (replicate (n / 2) backslash ++ quote ∷ []) after_other)
    else if not quoted && (c == 32)
    then (replicate n backslash, c ∷ cs)
    else prepend (replicate n backslash ++ c ∷ []) after_other

abbrev simple_reader : ArgumentReader
simple_reader = record { read = λ quoted line. read_after quoted 0 line }

read_backslashes :
    (quoted : Bool) (n m : ℕ) (line : List ℕ)
    → read_after quoted m (replicate n backslash ++ line) ≡ read_after quoted (n + m) line
unfolding read_after
read_backslashes quoted zero m line = ap (λ k. read_after quoted k line) (omega arith)
read_backslashes quoted (suc n) m line =
    read_backslashes quoted n (suc m) line ∙ ap (λ k. read_after quoted k line) (omega arith)

read_end :
    (rest : List ℕ) → Ends rest → (n : ℕ) → read_after false n rest ≡ (replicate n backslash, rest)
unfolding read_after
read_end rest (inl e) n = rw e
read_end rest (inr (line, e)) n = rw e

reads_closes :
    (n : ℕ) (rest : List ℕ)
    → Ends rest
    → read_after true 0 (replicate (n * 2) backslash ++ quote ∷ rest)
      ≡ (replicate n backslash, rest)
unfolding read_after
reads_closes n rest ends =
    read_backslashes true (n * 2) 0 (quote ∷ rest)
    ∙ (let even : ((n * 2 + 0) % 2 == 0) ≡ true = ground arith in
        let half : (n * 2 + 0) / 2 ≡ n = omega arith in
        rw (even, half)
          (ap (prepend (replicate n backslash)) (read_end rest ends 0)
            ∙ ap (λ t. (t, rest)) (append-nil (replicate n backslash))))

reads_marks :
    (n : ℕ) (line : List ℕ)
    → read_after true 0 (replicate (n * 2 + 1) backslash ++ quote ∷ line)
      ≡ prepend (replicate n backslash ++ quote ∷ []) (read_after true 0 line)
unfolding read_after
reads_marks n line =
    read_backslashes true (n * 2 + 1) 0 (quote ∷ line)
    ∙ (let odd : ((n * 2 + 1 + 0) % 2 == 0) ≡ false = ground arith in
        let half : (n * 2 + 1 + 0) / 2 ≡ n = omega arith in rw (odd, half))

reads_stands :
    (n c : ℕ) (line : List ℕ)
    → (c == backslash) ≡ false
    → (c == quote) ≡ false
    → read_after true 0 (replicate n backslash ++ c ∷ line)
      ≡ prepend (replicate n backslash ++ c ∷ []) (read_after true 0 line)
unfolding read_after
reads_stands n c line b q =
    read_backslashes true n 0 (c ∷ line) ∙ (let same : n + 0 ≡ n = omega arith in rw (b, q, same))

reads_plain :
    (text rest : List ℕ) (m : ℕ)
    → Unbroken text
    → Ends rest
    → read_after false m (text ++ rest) ≡ (replicate m backslash ++ text, rest)
unfolding read_after
reads_plain [] rest m h ends =
    read_end rest ends m ∙ ap (λ t. (t, rest)) (sym (append-nil (replicate m backslash)))
reads_plain (c ∷ cs) rest m (space, tab, mark, others) ends =
    let not_quote : (c == quote) ≡ false = ground (arith, mark) in
    let not_space : (c == 32) ≡ false = ground (arith, space) in
    elim (Bool-cases (c == backslash)) [
      | inl b ↦
          let same : c ≡ backslash = ground arith in
          rw b (
            reads_plain cs rest (suc m) others ends
            ∙ ap (λ t. (t, rest))
                (replicate_shift m backslash cs
                  ∙ ap (λ d. replicate m backslash ++ d ∷ cs) (sym same)))
      | inr b ↦
          rw (b, not_quote, not_space)
            (ap (prepend (replicate m backslash ++ c ∷ [])) (reads_plain cs rest 0 others ends)
              ∙ ap (λ t. (t, rest)) (append_assoc (replicate m backslash) (c ∷ []) cs))
    ]

simple-Rules : Rules simple_reader
unfolding read_after
simple-Rules = record {
  opens = λ line. refl;
  closes = λ n rest ends. reads_closes n rest ends;
  marks = λ n line. reads_marks n line;
  stands = λ n c line b q. reads_stands n c line b q;
  plain = λ text rest some_text h ends. reads_plain text rest 0 h ends;
}

escape_runs : escape_argument (codes "a\\\" b") ≡ codes "\"a\\\\\\\" b\""
unfolding escape_argument escape_from needs_quotes
escape_runs = refl

plain_runs : escape_argument (codes "C:\\a\\") ≡ codes "C:\\a\\"
unfolding escape_argument needs_quotes
plain_runs = refl

read-escape_argument_example :
    read_after false 0 (escape_argument (codes "a\\\" b\\") ++ codes " --port 1")
    ≡ (codes "a\\\" b\\", codes " --port 1")
read-escape_argument_example =
    read-escape_argument simple_reader simple-Rules (codes "a\\\" b\\") (codes " --port 1")
      (λ (e : codes "a\\\" b\\" ≡ []). grind arith) (inr (codes "--port 1", refl))

-- Every process starts, and is its own handle. The system signals the first handle until
-- number 103 is next, when it signals the last; on too many handles it fails.
abbrev three_waits : Windows
three_waits = record {
  World = ℕ;
  launch = λ n. (record { created = true; process = n; assigned = true; resumed = true }, n + 1);
  wait = λ hs n.
      (if ltb 64 (length hs) then 0xFFFFFFFF else if ltb n 103 then 0 else length hs - 1, n);
}

abbrev pool_of : ℕ → List ScopedHandle → Pool
pool_of n hs = record {
  num_processes = n;
  exit_event = 99;
  processes = hs;
  terminated = [];
  closed = [];
}

thread_runs :
    thread_main three_waits 9 (pool_of 2 []) 100
    ≡ ok (record (pool_of 2 (some 101 ∷ some 102 ∷ [])) { closed = [] }, 103)
unfolding thread_main thread_round start_missing create_process after_wait erase shift release
thread_runs = refl

erase_closes_only_last_run :
    (erase 1 (some 1 ∷ some 2 ∷ some 3 ∷ []) ≡ (some 1 ∷ some 3 ∷ [], none))
    × (erase 1 (some 1 ∷ some 2 ∷ []) ≡ (some 1 ∷ [], some 2))
erase_closes_only_last_run = erase_closes_only_last (some 1 ∷ []) [] (some 2) (some 3)

thread_round-at_most_run :
    (length (thread_round three_waits (pool_of 2 []) 100).1.processes ≤ 2)
    × ((thread_round three_waits (pool_of 2 []) 100).1.num_processes ≡ 2)
thread_round-at_most_run = thread_round-at_most three_waits (pool_of 2 []) 100 (omega arith)

waits_fail :
    (hs : List ScopedHandle) (v : ℕ)
    → 64 < length hs
    → (if ltb 64 (length hs) then 0xFFFFFFFF else if ltb v 103 then 0 else length hs - 1)
      ≡ 0xFFFFFFFF
waits_fail hs v h = ground arith

thread_main_stuck_example :
    thread_main three_waits 1000 (pool_of 64 (replicate 64 (some 7))) 100 ≡ err Error.out_of_fuel
thread_main_stuck_example =
    thread_main_stuck three_waits 1000 (pool_of 64 (replicate 64 (some 7))) 100 waits_fail refl
      (omega arith) (omega arith)
