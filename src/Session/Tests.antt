-- ===== src/Session/Tests.antt =====
-- The theorems on sessions at concrete ones.
use jsonrpc.Base.{ℕ, ◌==◌, ◌≡◌, some, none, if◌then◌else◌, codes}
use jsonrpc.Samples.{empty_session}
use jsonrpc.Session.{Session, add_remote_ref, zero_info}
use jsonrpc.Session.Remote.{peek_remote, peek_remote-add_remote_ref}

-- A session with the info of pointer 1 under the reference `a`.
abbrev known : Session
known = add_remote_ref (codes "a") (some 1) 0 5 empty_session

-- The same info is added under `b`, and what is found under `a` says `b`.
peek_remote-add_remote_ref_example :
    peek_remote (codes "a") (add_remote_ref (codes "b") (some 1) 0 6 known)
    ≡ some (record zero_info {
      ref = codes "b";
      direction = codes "remote";
      created = 5;
      last_accessed = 6;
    })
unfolding add_remote_ref jsonrpc.Base.Dict.lookup jsonrpc.Base.Dict.insert peek_remote
peek_remote-add_remote_ref_example = peek_remote-add_remote_ref (codes "b") 1 0 6 known (codes "a")
