-- ===== src/Lib.antt =====
-- VoteIT: models and proofs of the program's core.
--
-- VoteIT runs the meetings of organisations. A meeting (voteit/meeting) has roles for its users, an
-- agenda (voteit/agenda), proposals on its agenda items (voteit/proposal), and polls about proposals
-- (voteit/poll). A poll counts the votes of the voters in an electoral register. Each of these parts
-- has a state chart; an event is sent to the chart by a request, and the chart asks the permission
-- rules whether the user may do that.
--
-- Files and code:
--   Prelude            Boolean tests, lists, and Python's Counter and dict as association lists.
--   States             the states of the charts (`State(...)` of the five statemachines.py files).
--   Core/Chart         the declarations of a chart, and `Engine`, which stands for the library
--                      python-statemachine: it picks the first transition that fits the state and the
--                      event, runs its validators and then its conditions. Its laws are the fields of
--                      the record, and `python_statemachine` is one that obeys them.
--   Core/Roles         `Roles.add`, `Roles.remove` and what they call (voteit/core/models.py);
--                      Core/Roles/Rows has the roles of one user in a meeting.
--   Rules              the predicates and permissions of the rules.py files; Rules/Content has those of
--                      polls, votes, proposals and reactions, Rules/Contexts those of text documents,
--                      discussions, rooms, components, automatic access, active users, keys of the
--                      API and organisations.
--   Meeting, Agenda, Proposal
--                      the three charts with the receivers of their signals. `send` is `sm.send`,
--                      over any engine; `step` computes it. The guards, actions and permissions of a
--                      chart are functions `validate`, `holds`, `on_event`, `before_transition` and
--                      `after_transition`, named after the callbacks.
--   Proposal/Documents text documents and their paragraphs (voteit/proposal/models.py and signals.py).
--   Proposal/Naming    the ids and tags of proposals: `Proposal.save` and `UseridPID`.
--   Poll/Register      `ElectoralRegister`, `Vote.save`, the vote serializer's `create`, and
--                      `VoteTransfer.save`.
--   Poll/Ballots       `cleanup_removed_from_er_votes`, `finalize_vote_data`, `calculate_result`.
--   Poll/Machine       the chart of a poll; Poll/Machine/Actions has its actions, and `send` with the
--                      eventless transitions that follow an event.
--   Poll/Policy        `ElectoralRegisterPolicy` (voteit/poll/abcs.py); its children have the voters of
--                      the policies of voteit/poll/app/er_policies: Groups shares the votes of groups,
--                      Seats serves main and substitute members, Delegates transfers votes.
--   Poll/Starting      a poll that starts under a policy.
--   Poll/Methods       the poll methods of voteit/poll/app/polls; Ranked has STV and IRV.
--   Text               comma-separated numbers as text, for the order of a speaker list and ranked votes;
--                      Text/Lines has the rows of a text.
--   Reactions          the save of a reaction button (voteit/reactions/models.py).
--   Speaker            `Speaker` and `SpeakerList` of voteit/speaker/models.py, with `ListMethod`, the
--                      interface of the list methods. Speaker/Methods fills it with those of
--                      voteit/speaker/app/list_methods, Speaker/Desk has the requests of
--                      voteit/speaker/rest_api/views.py, Speaker/Permissions the rules, and
--                      Speaker/System the chart of speaker systems and their archiving.
--   Invites            invites to a meeting (voteit/invites): their chart, jobs, and the roles they give,
--                      those by groups included (voteit/invites/app/invites/group.py).
--   Groups             groups of a meeting (voteit/meeting/signals.py and models.py), and the numbers
--                      of participants; Groups/Dialects has the dialects that a dialect requires,
--                      with their merging.
--   Messaging          messages to browsers (voteit/messaging): Bundles packs the initial state of a channel
--                      (bundle.py), Batcher collapses what one transaction sends (utils.py).
--   Merger             `UserMerger` of voteit/core/user_merger.py; Merger/Tables has what it does to the
--                      relations of a user, Merger/Run the whole of it, with the receivers that the
--                      deletion of roles fires. A dry run is compared with a merge
--                      for one table only: the two differ where such a receiver deletes rows.
--   Scenarios          runs of all this on concrete data.
--
-- Numbers are natural numbers: primary keys, weights and times. A state is compared by a
-- number in place of its text. The database is the records that a function takes and returns, so a
-- function describes one request in one transaction. Times are seconds, in Speaker microseconds and in
-- Invites days. `get_required_roles` recurses on fuel, which is enough if it exceeds the length of every
-- chain of requirements. The rounds of `alternate` and `digits` are bounded by the length of the list and
-- by the number, and `load_names` has a round more than there are dialects; each is shown to be enough,
-- as are the rounds of `pack_section`, two more than a section has pieces.
--
-- An active superuser has every permission: the charts and requests ask `has_perm`, while the functions
-- named after the permissions are what their rules say of everybody else.
--
-- Parameters: the state chart library (`Engine`), SHA-512, what a poll takes from its method and from
-- the meeting's register policy (`Method`), `random.Random.shuffle` (`Random`), the library that ranks
-- candidates in Schulze polls (`SchulzeMethod`), what stvpoll makes of ballots, `random.sample`, the tags of
-- users (`GenderSettings`), which element `set.pop` takes (`SetPop`), Django's `slugify`, `strip_html`,
-- which calls nh3, the draw of `_new_proposal_id`, the registry of models, how
-- long the JSON of a message is (`Sizes`), how a context adds roles in a merge, and which messages are registered.
--
-- Not modelled: the websockets that carry messages to browsers, serialization and REST views (but for the requests on
-- speaker lists and the vote serializer), the installing of dialects, the search for invites and their
-- import, the words that an amendment changes, the records of discussions and rooms, export and import
-- of meetings, administration, statistics, and the code of the libraries.
pub mod Prelude
pub mod States
pub mod Core
pub mod Rules
pub mod Meeting
pub mod Agenda
pub mod Proposal
pub mod Poll
pub mod Groups
pub mod Invites
pub mod Merger
pub mod Messaging
pub mod Reactions
pub mod Speaker
pub mod Text
pub mod Scenarios
