-- ===== src/Launch/Warning.antt =====
-- internal/agentwarn/agentwarn.go: the prompt when the agent is down. What arrives while the countdown
-- waits is a list with one entry for each round of the loop.
use jitenv.Base.{
  ℕ, zero, suc, Bool, true, false, ◌||◌, Option, none, some, List, [], ◌∷◌, ◌==◌, if◌then◌else◌,
  Text, is_empty, Parsed, number, atoi,
}

pub data Action : Type 0 where
  proceed abort unlock : Action

-- classifyKey
abbrev pub classify_key : ℕ → Action
classify_key b = if b == b'u' || b == b'U' then unlock else if b == 3 then abort else proceed

-- what ends one round: a signal, a key, the closing of the reader, or the tick of the second
pub data Event : Type 0 where
  interrupt closed tick : Event
  key : ℕ → Event

abbrev pub ends : Event → Option Action
ends interrupt = some abort
ends closed = some proceed
ends tick = none
ends (key b) = some (classify_key b)

abbrev pub or_later : Option Action → Action → Action
or_later none later = later
or_later (some a) later = a

-- the rounds that are left, from the total down; a round without an entry ends with its tick
unfoldable pub countdown : ℕ → List Event → Action
countdown zero events = proceed
countdown (suc i) [] = countdown i []
countdown (suc i) (e ∷ events) = or_later (ends e) (countdown i events)

abbrev pub seconds : Parsed → ℕ
seconds (number false n) = n
seconds (number true zero) = 0
seconds _ = 10

-- JITENV_HOOK_DELAY
abbrev pub total : Text → ℕ
total v = if is_empty v then 10 else seconds (atoi v)

-- linePromptFallback: an interrupt, or the line that was read before its end or its error
pub data Line : Type 0 where
  interrupted : Line
  read : Text → Line

abbrev pub line_prompt_fallback : Line → Action
line_prompt_fallback interrupted = abort
line_prompt_fallback (read []) = proceed
line_prompt_fallback (read (b ∷ line)) = classify_key b

pub record Terminal : Type 0 where
  pub is_tty : Bool
  pub raw_fails : Bool
  pub line : Line
  pub events : List Event

-- WarnAndWait, for the value of JITENV_HOOK_DELAY
unfoldable pub warn_and_wait : Terminal → Text → Action
unfolding countdown atoi
warn_and_wait t delay =
    if (if t.is_tty then total delay == 0 else true)
    then proceed
    else if t.raw_fails
    then line_prompt_fallback t.line
    else countdown (total delay) t.events
