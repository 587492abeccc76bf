-- ===== src/Lib.antt =====
-- cycles-ap2-python puts a runtime budget guard around one AP2 payment: before the payment a budget is
-- reserved at the Cycles server, and after it the reservation is committed or released.
--
-- The parts, and where they are modelled:
--
--   runcycles_ap2/models.py       Mandate: the mandate, its fields' constraints (`new_mandate`) and
--                                 `amount_micros`, which turns the decimal text of the amount into
--                                 micro-cents. Mandate.Source and Mandate.Upstream: `from_ap2`.
--   runcycles_ap2/_validation.py  Validation: `validate_micros`.
--   runcycles_ap2/mapping.py      Mapping: the idempotency keys and the bodies of the three calls, as
--                                 records. Mapping.Wire: the dicts that the builders return of them.
--                                 Mapping.Reading: a reader of the keys.
--   runcycles_ap2/receipt.py      Receipt: the receipt and its builder.
--   runcycles_ap2/exceptions.py   Errors: the exceptions as data, and results that are one or a value.
--   runcycles_ap2/_constants.py   Constants.
--   runcycles_ap2/guard.py        Guard.State: the attributes of a guard. Guard: its setters,
--                                 `__enter__` and `_handle_release`. Guard.Settling:
--                                 `_build_receipt`. Guard.Exit: `_handle_commit` and `__exit__`.
--                                 Guard.With: the `with` statement around a body that sets amounts,
--                                 attaches fields, aborts, pays and raises. Guard.Admits,
--                                 Guard.Entry, Guard.Denied and Guard.Evolves also hold the relations that the
--                                 theorems on them speak of. AsyncGuard: `AsyncGuardedPayment`,
--                                 method by method (Settings, Entry, Release), with the equations
--                                 between its methods and the synchronous ones in AsyncGuard.Mirror.
--   examples/ap2_human_not_present.py, examples/ap2_human_not_present_async.py
--                                 Examples: the two scripts, over an environment.
--   README.md                     ConsumeOnce: what the server promises for the keys (Honours) and the
--                                 worlds that other calls and payments lead to (Later).
--                                 ConsumeOnce.Fleet: many guards with their methods interleaved,
--                                 one method being one step.
--
-- A guard builds a body with Mapping, sends it with the client, and reads the reply. The client is
-- a parameter (Client): a function from the server's state and a call to a reply and the next
-- state, with no law assumed of it, except that the theorems of ConsumeOnce assume the promise of
-- the README on idempotency keys: a tenant's key keeps the reservation that it was granted, and an
-- allowed request for a real run with the key is answered with that reservation; and except that a
-- theorem which compares an asynchronous run with a synchronous one assumes that no call is
-- cancelled; and that of the dry runs of the examples, that the reading of a reply raises no
-- `AP2DryRunResult`. Every call and every payment is written to the log of the World, so theorems on the
-- log speak of what the server and the payee see, in order. What an exception of other code is,
-- for `except`, is its Kind: a cancellation, another `Exception`, or neither.
--
-- Builtins has what the interpreter and pydantic bring, as parameters: `repr`, `str` and `bool` of
-- what is no text, which may raise, the limit on the digits of an `int` that is formatted, the Unicode
-- tables from 128 on, and the validation of a text field, of which only its bounds of length are
-- assumed. An attribute of an upstream object is an Access: a value, an `AttributeError` or another
-- exception.
-- Decimal and Sha256 are models of the standard library's `Decimal(s)` and `hashlib.sha256`.
--
-- A method is a function on the state, split by the tests that the code makes: `conclude` is the end
-- of `__enter__`, `answered` and `committing` are the middle of `_handle_commit`, each with one clause
-- for a branch. Numbers are unbounded, as Python's are; the protocol's limit of 2 ^ 63 - 1 is the
-- constant that the code compares with. A number is printed with as many digits as fuel as the
-- number itself, which is enough, and the blocks of a hash are counted from the length of its input.
--
-- Not modelled: logging; the client's transport; the server, of which only the promise above is a
-- hypothesis where it is needed; the serialisation of the dicts to JSON; the scheduling of
-- asynchronous tasks inside a method, of which only the cancellation of an awaited call is seen, as
-- what the call raises; the properties of a guard, which only read it; the re-exports of `__init__`.
pub mod Base
pub mod Constants
pub mod Value
pub mod Errors
pub mod Builtins
pub mod Sha256
pub mod Decimal
pub mod Validation
pub mod Mandate
pub mod Mapping
pub mod Client
pub mod Receipt
pub mod Guard
pub mod AsyncGuard
pub mod ConsumeOnce
pub mod Examples
mod Tests
