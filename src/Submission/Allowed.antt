-- ===== src/Submission/Allowed.antt =====
-- To whom a submission may go (crates/jmapsmtp/src/submit.rs).
use jmapsmtp.Prelude.{Bool, true, false, [], Str, not, ◌||◌, any, ◌≡◌, refl, sym, ap, ◌∙◌, inl, inr}
use jmapsmtp.Result.{Result, Result-cases, ok, err, ◌>>=◌}
use jmapsmtp.Map
use jmapsmtp.Keys.{text_ord}
use jmapsmtp.Map.Set.{Set}
use jmapsmtp.JmapTypes.{Email}
use jmapsmtp.Accounts.{AccountStore}
use jmapsmtp.Store.{Store}
use jmapsmtp.Hooks.{
  Envelope, reply_only_exempt, reply_only_allows, known_correspondents, within_storage_cap,
  resolve_envelope,
}
use jmapsmtp.Hooks.Sealing.{is_ok, is_unknown, is_ok-reply_only_allows}
use jmapsmtp.Mime.Address.{build_envelope}
use jmapsmtp.Submission.{Desk, Office, SendTask, after_put, admitted_envelope, on_submit_email}

>>=-ok :
    {E A B : Type 0} (r : Result E A) (f : A → Result E B) (b : B)
    → (r >>= f) ≡ ok b
    → (a : A) × (r ≡ ok a) × (f a ≡ ok b)
>>=-ok (ok a) f b h = (a, refl, h)
>>=-ok (err e) f b h = cc

module _ (d : Desk) where
  -- Who has written to an account.
  abbrev pub known_to : AccountStore Store → Set Str
  known_to account = known_correspondents d.wire.platform.unicode (Map.values account.store.msgs) []

  admitted_envelope-ok :
      (account : AccountStore Store) (msg : Email) (supplied envelope : Envelope)
      → admitted_envelope d account msg supplied ≡ ok envelope
      → reply_only_allows d.wire.platform.unicode d.reply_only_outbound d.exempt_senders
          account.email envelope
          (known_to account)
        ≡ ok tt
  unfolding admitted_envelope
  admitted_envelope-ok account msg supplied envelope h =
      let (u, _, h1) = >>=-ok (within_storage_cap d.storage_cap (d.used account.dir)) _ _ h in
      let (e, _, h2) = >>=-ok (resolve_envelope build_envelope msg supplied) _ _ h1 in
      let (u', allowed, h3) =
        >>=-ok
          (reply_only_allows d.wire.platform.unicode d.reply_only_outbound d.exempt_senders
            account.email e (known_to account))
          _ _ h2 in
      let same : e ≡ envelope = cc in rw (← same) allowed

  after_put-ok :
      (task given : SendTask) (r : Store × Bool) (o : Office)
      → (after_put d given r o).1 ≡ ok task
      → given ≡ task
  after_put-ok task given (store, true) o h = cc
  after_put-ok task given (store, false) o h = cc

  -- A message that is submitted with success goes to nobody who has not written to the account, unless
  -- the rule is off or the sender is exempt; the envelope is the one that the task sends to.
  pub on_submit_email-allowed :
      (msg : Email) (supplied : Envelope) (o : Office) (task : SendTask)
      → (on_submit_email d msg supplied o).1 ≡ ok task
      → (not d.reply_only_outbound
          || reply_only_exempt d.wire.platform.unicode d.exempt_senders o.account.email
          || not
              (any (is_unknown d.wire.platform.unicode (known_to o.account)) task.envelope.rcpt_to))
        ≡ true
  unfolding on_submit_email
  on_submit_email-allowed msg supplied o task h =
      elim (Result-cases (admitted_envelope d o.account msg supplied)) [
        | inr (e, a) ↦ let refused : err e ≡ ok task = rw (on_submit_email, a) at h in cc
        | inl (envelope, a) ↦
            let sent_to = after_put-ok task _ _ o (rw (on_submit_email, a) at h) in
            let allowed = admitted_envelope-ok o.account msg supplied envelope a in
            let checked =
              sym (
                is_ok-reply_only_allows d.wire.platform.unicode d.reply_only_outbound
                  d.exempt_senders o.account.email envelope (known_to o.account))
              ∙ ap is_ok allowed in
            ap
              (λ t.
                not d.reply_only_outbound
                || reply_only_exempt d.wire.platform.unicode d.exempt_senders o.account.email
                || not (
                    any (is_unknown d.wire.platform.unicode (known_to o.account))
                      t.envelope.rcpt_to))
              (sym sent_to)
            ∙ checked
      ]
