-- ===== src/MessageQueue/Deletion.antt =====
-- message_queue/message_queue_client.cpp in test_mq_client.cpp: which threads use a deleted client.
use seda_framework.Base.{
  ◌≡◌, refl, Bool, true, false, not, ◌||◌, if◌then◌else◌, ap, sym, subst, ◌∙◌,
}
use seda_framework.MessageQueue.Lifetime.{
  MainPc, connecting, registering, looping, creating, deleting, joining, returned, failed, Thread,
  unset, running, ended, Client, use_client, loop, create_publisher, destroy_client, join_publisher,
  Step, connects, connect_fails, registers, register_fails, loops, creates, receives, leaves, sends,
  deletes, joins, Reach, here, next,
}

-- Main has not deleted the client, and has not come to create the thread of `publish`.
abbrev before_delete : MainPc → Bool
before_delete joining = false
before_delete returned = false
before_delete _ = true

abbrev before_create : MainPc → Bool
before_create connecting = true
before_create registering = true
before_create looping = true
before_create creating = true
before_create _ = false

abbrev after_create : MainPc → Bool
after_create deleting = true
after_create joining = true
after_create _ = false

record IsOrderly (role : Bool) (s : Client) : Type 0 where
  same_role : s.role ≡ role
  kept : before_delete s.main ≡ true → s.alive ≡ true
  receiving : s.receiver ≡ running → s.alive ≡ true
  deleted : s.alive ≡ false → s.receiver ≡ ended
  unmade : before_create s.main ≡ true → s.publisher ≡ unset
  publishing : s.publisher ≡ running → role ≡ false
  used : s.used_deleted ≡ true → role ≡ false
  waiting : after_create s.main ≡ true → s.publisher ≡ (if role then unset else running)
  joined : s.main ≡ returned → s.joined_unset ≡ role

or_not : (b c : Bool) → c ≡ true → (b || not c) ≡ true → b ≡ true
or_not true c e h = refl
or_not false c e h = absurd (cc (rw e at h))

-- Main goes on, short of the deletion.
moves :
    (role : Bool) (s : Client) (pc : MainPc)
    → before_delete s.main ≡ true
    → before_delete pc ≡ true
    → (before_create pc ≡ true → before_create s.main ≡ true)
    → after_create pc ≡ false
    → IsOrderly role s
    → IsOrderly role (record s { main = pc })
moves role s pc e e' earlier other k = record {
  same_role = k.same_role;
  kept = λ _. k.kept e;
  receiving = k.receiving;
  deleted = k.deleted;
  unmade = λ h. k.unmade (earlier h);
  publishing = k.publishing;
  used = k.used;
  waiting = λ h. absurd (cc (h, other));
  joined = λ h. absurd (cc (ap before_delete h));
}

-- A thread uses the client, which is alive unless the thread is that of a publisher.
uses :
    (role : Bool) (s : Client)
    → ((s.used_deleted || not s.alive) ≡ true → role ≡ false)
    → IsOrderly role s
    → IsOrderly role (use_client s)
unfolding use_client
uses role s h k = record {
  same_role = k.same_role;
  kept = k.kept;
  receiving = k.receiving;
  deleted = k.deleted;
  unmade = k.unmade;
  publishing = k.publishing;
  used = h;
  waiting = k.waiting;
  joined = k.joined;
}

received :
    (role : Bool) (s : Client)
    → s.receiver ≡ running
    → IsOrderly role s
    → IsOrderly role (use_client s)
received role s e k = uses role s (λ h. k.used (or_not s.used_deleted s.alive (k.receiving e) h)) k

joined_by :
    (role : Bool) (publisher : Thread)
    → publisher ≡ (if role then unset else running)
    → elim publisher [ unset ↦ role | running ↦ false | ended ↦ false ] ≡ role
joined_by true publisher e = rw e refl
joined_by false publisher e = rw e refl

created_by :
    (role : Bool) (publisher : Thread)
    → publisher ≡ unset
    → (if role then publisher else running) ≡ running
    → role ≡ false
created_by true publisher e h = absurd (cc (e, h))
created_by false publisher e h = refl

Step-IsOrderly : (role : Bool) {s t : Client} → Step s t → IsOrderly role s → IsOrderly role t
unfolding use_client loop create_publisher destroy_client join_publisher
Step-IsOrderly role {s} (connects e) k =
    moves role s registering (rw e refl) refl (λ _. rw e refl) refl k
Step-IsOrderly role {s} (connect_fails e) k =
    moves role s failed (rw e refl) refl (λ h. absurd cc) refl k
Step-IsOrderly role {s} (registers e) k =
    moves role s looping (rw e refl) refl (λ _. rw e refl) refl k
Step-IsOrderly role {s} (register_fails e) k =
    moves role s failed (rw e refl) refl (λ h. absurd cc) refl k
Step-IsOrderly role {s} (loops e) k = record {
  same_role = k.same_role;
  kept = λ _. k.kept (rw e refl);
  receiving = λ _. k.kept (rw e refl);
  deleted = λ h. absurd (cc (h, k.kept (rw e refl)));
  unmade = λ _. k.unmade (rw e refl);
  publishing = k.publishing;
  used = k.used;
  waiting = λ h. absurd cc;
  joined = λ h. absurd cc;
}
Step-IsOrderly role {s} (creates e) k = record {
  same_role = k.same_role;
  kept = λ _. k.kept (rw e refl);
  receiving = k.receiving;
  deleted = k.deleted;
  unmade = λ h. absurd cc;
  publishing =
      subst (λ r. (if r then s.publisher else running) ≡ running → role ≡ false) (sym k.same_role)
        (created_by role s.publisher (k.unmade (rw e refl)));
  used = k.used;
  waiting = λ _.
      ap (λ r. if r then s.publisher else running) k.same_role
      ∙ ap (λ p. if role then p else running) (k.unmade (rw e refl));
  joined = λ h. absurd cc;
}
Step-IsOrderly role {s} (receives open_ e) k = received role s e k
Step-IsOrderly role {s} (leaves open_ e) k =
    let k' = received role s e k in
    record {
      same_role = k'.same_role;
      kept = k'.kept;
      receiving = λ h. absurd cc;
      deleted = λ _. refl;
      unmade = k'.unmade;
      publishing = k'.publishing;
      used = k'.used;
      waiting = k'.waiting;
      joined = k'.joined;
    }
Step-IsOrderly role {s} (sends open_ e) k = uses role s (λ _. k.publishing e) k
Step-IsOrderly role {s} (deletes e e') k = record {
  same_role = k.same_role;
  kept = λ h. absurd cc;
  receiving = λ h. absurd (cc (e', h));
  deleted = λ _. e';
  unmade = λ h. absurd cc;
  publishing = k.publishing;
  used = k.used;
  waiting = λ _. k.waiting (rw e refl);
  joined = λ h. absurd cc;
}
Step-IsOrderly role {s} (joins e) k = record {
  same_role = k.same_role;
  kept = λ h. absurd cc;
  receiving = k.receiving;
  deleted = k.deleted;
  unmade = λ h. absurd cc;
  publishing = k.publishing;
  used = k.used;
  waiting = λ h. absurd cc;
  joined = λ _.
      subst (λ r. elim s.publisher [ unset ↦ r | running ↦ false | ended ↦ false ] ≡ role)
        (sym k.same_role) (joined_by role s.publisher (k.waiting (rw e refl)));
}

Reach-IsOrderly : (role : Bool) {s : Client} → Reach role s → IsOrderly role s
Reach-IsOrderly role here = record {
  same_role = refl;
  kept = λ _. refl;
  receiving = λ h. absurd cc;
  deleted = λ h. absurd cc;
  unmade = λ _. refl;
  publishing = λ h. absurd cc;
  used = λ h. absurd cc;
  waiting = λ h. absurd cc;
  joined = λ h. absurd cc;
}
Reach-IsOrderly role (next r st) = Step-IsOrderly role st (Reach-IsOrderly role r)

-- Whatever the order of the program's threads, the receiving thread runs only while the client is there,
-- which is deleted only once that thread has ended; only in a publisher's program, whose role is 0, is
-- the client used after its deletion; and when main returns it has waited for a thread that was never
-- created exactly if the role is not 0.
pub Reach-deleted :
    (role : Bool) {s : Client}
    → Reach role s
    → (s.receiver ≡ running → s.alive ≡ true)
      × (s.alive ≡ false → s.receiver ≡ ended)
      × (s.used_deleted ≡ true → role ≡ false)
      × (s.main ≡ returned → s.joined_unset ≡ role)
Reach-deleted role r = let k = Reach-IsOrderly role r in (k.receiving, k.deleted, k.used, k.joined)
