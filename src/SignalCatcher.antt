-- ===== src/SignalCatcher.antt =====
-- bf-service/signalcatcher.cpp, with the slots of bf-service/bfserviceprivate.cpp that its signals call. A Unix
-- signal writes a byte into a socket pair, and the event loop of the private thread, in which the catcher
-- is made, reads it and emits the Qt signal. A slot runs as a whole, and a signal may arrive between two
-- of them. The socket pairs do not fill up. Log messages are left out.
pub mod Counting
use bf.Base.{
  ℕ, suc, ◌-◌, Bool, true, false, List, [], ◌∷◌, Option, none, some, if◌then◌else◌, ◌==◌, ◌||◌,
}

pub data UnixSignal : Type 0 where
  sigint sigusr2 sigterm sighup : UnixSignal

abbrev pub same : UnixSignal → UnixSignal → Bool
same sigint sigint = true
same sigusr2 sigusr2 = true
same sigterm sigterm = true
same sighup sighup = true
same _ _ = false

-- By signal: the bytes in its socket pair, whether its handler is installed, and how often its Qt signal
-- was emitted; and whether `exit` of the application was called, and whether a signal without a handler
-- has killed the process.
pub record Catcher : Type 0 where
  pub pending : UnixSignal → ℕ
  pub installed : UnixSignal → Bool
  pub emitted : UnixSignal → ℕ
  pub exited : Bool
  pub killed : Bool

-- installSignalHandlers, which stops at the first sigaction that fails, and what it returns: 0, or 1 for -1.
unfoldable pub install_signal_handlers : (UnixSignal → Bool) → (UnixSignal → Bool) × ℕ
install_signal_handlers sigaction =
    if sigaction sigint
    then (if sigaction sigusr2
        then (if sigaction sigterm
            then (if sigaction sighup
                then ((λ s. true), 0)
                else ((λ s. same s sigint || (same s sigusr2 || same s sigterm)), 1))
            else ((λ s. same s sigint || same s sigusr2), 1))
        else ((λ s. same s sigint), 1))
    else ((λ s. false), 1)

-- The constructor; `none` where a socket pair cannot be made, which ends the process by qFatal.
unfoldable pub new_catcher : (UnixSignal → Bool) → (UnixSignal → Bool) → Option Catcher
unfolding install_signal_handlers
new_catcher socketpair sigaction =
    if socketpair sigint
    then (if socketpair sigusr2
        then (if socketpair sigterm
            then (if socketpair sighup
                then some (record {
                  pending = λ s. 0;
                  installed = (install_signal_handlers sigaction).0;
                  emitted = λ s. 0;
                  exited = false;
                  killed = false;
                })
                else none)
            else none)
        else none)
    else none

-- intSignalHandler and its kin, where the signal has its handler.
unfoldable pub signal_handler : UnixSignal → Catcher → Catcher
signal_handler s c =
    if c.installed s
    then record c { pending = λ t. if same s t then suc (c.pending t) else c.pending t }
    else record c { killed = true }

-- onSignalHUP and its kin
unfoldable pub on_signal : UnixSignal → Catcher → Catcher
on_signal sigterm c = record c { exited = true }
on_signal s c = c

-- handleSigInt and its kin
unfoldable pub handle_sig : UnixSignal → Catcher → Catcher
unfolding on_signal
handle_sig s c = on_signal s (record c {
  pending = λ t. if same s t then c.pending t - 1 else c.pending t;
  emitted = λ t. if same s t then suc (c.emitted t) else c.emitted t;
})

-- A signal arrives, or the event loop of the private thread has a turn for a notifier, which is activated
-- while there are bytes. `exit` is called for the main thread, so the turns of this loop may go on.
pub data Happening : Type 0 where
  arrives notified : UnixSignal → Happening

unfoldable pub happen : Happening → Catcher → Catcher
unfolding signal_handler handle_sig
happen (arrives s) c = if c.killed then c else signal_handler s c
happen (notified s) c = if c.killed || c.pending s == 0 then c else handle_sig s c

unfoldable pub happen_all : List Happening → Catcher → Catcher
unfolding happen
happen_all [] c = c
happen_all (h ∷ hs) c = happen_all hs (happen h c)
