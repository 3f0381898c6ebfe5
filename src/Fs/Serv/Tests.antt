-- ===== src/Fs/Serv/Tests.antt =====
-- A file server for fs/serv.c on a small disk: entry 0 of its table was used before.
use mos_volca_shell.Base.{
  List, ◌≡◌, refl, arith, true, some, [], ◌∷◌, ◌==◌, if◌then◌else◌, update, ok, err, inval, Leaves,
  ==-ne,
}
use mos_volca_shell.Text.{slash}
use mos_volca_shell.Fs.Dir.{root}
use mos_volca_shell.Fs.Dir.Tests.{dir_disk}
use mos_volca_shell.Fs.Serv.{
  Server, open_req, map_req, handle, Message, serve, serve_init, open_alloc, open_lookup,
  empty_page,
}
use mos_volca_shell.Fs.Serv.Ids.{
  IdsOk, TakenEntry, Opened, mapped_by_client, serve-IdsOk, open_alloc-Opened,
  open_lookup-TakenEntry,
}
use mos_volca_shell.Fs.Serv.Answer.{Answered, handle-Answered}

abbrev server : Server
server = record {
  fs = dir_disk;
  o_file = λ i. some root;
  o_fileid = λ i. i;
  o_mode = λ i. 0;
  ff = λ i. empty_page;
  refs = λ i. if i == 0 then 1 else 0;
  replies = [];
}

server-IdsOk : IdsOk server
server-IdsOk i lt = omega (arith, lt)

abbrev after_open : Server
after_open = record server { o_fileid = update server.o_fileid 0 1024 }

entry_0 : TakenEntry 0 server after_open
entry_0 = record {
  below = omega arith;
  unused = omega arith;
  used_before = λ j lt. absurd (omega (arith, lt));
  new_id = refl;
  other_ids = λ j ne. rw (==-ne j 0 ne) refl;
  refs_after = refl;
}

-- Between the two messages the client has mapped the page that it was sent.
abbrev two_messages : List Message
two_messages =
    (λ i. 0, 7, true, open_req (slash ∷ []) 0)
    ∷ (λ i. if i == 0 then 2 else 0, 7, true, map_req 1024 0)
    ∷ []

serve-IdsOk_example : Leaves IdsOk (serve 2 two_messages (serve_init server))
serve-IdsOk_example = serve-IdsOk 2 two_messages server

open_alloc-Opened_example : Opened server (open_alloc server)
open_alloc-Opened_example = open_alloc-Opened server

open_lookup-TakenEntry_example :
    (open_lookup 1024 (mapped_by_client 0 after_open) ≡ ok 0 (mapped_by_client 0 after_open))
    × (open_lookup 0 (mapped_by_client 0 after_open) ≡ err inval (mapped_by_client 0 after_open))
open_lookup-TakenEntry_example = open_lookup-TakenEntry 0 server after_open server-IdsOk entry_0

handle-Answered_example : Leaves (Answered 7 server) (handle 2 7 (map_req 0 0) server)
handle-Answered_example = handle-Answered 2 7 (map_req 0 0) server refl
