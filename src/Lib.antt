-- ===== src/Lib.antt =====
-- Cheshire Cat (core/cat): a framework for conversational agents with plugins.
--
-- A client sends a message over http or a websocket. The connection is authorized (Auth), which gives
-- the user whose session, a `StrayCat`, runs the turn (Session): the plugins' hooks are called through
-- the `MadHatter` (MadHatter), memories are recalled, the agents answer (Agents), possibly by a form
-- that collects data over several turns (Form), and the working memory goes to a cache (Cache).
--
-- Files and code:
--   Cache       core/cat/cache: `CacheItem`, the abstract `BaseCache` as a record of operations and
--               laws, the in-memory and the file store as its instances. Time is an argument.
--   Auth        core/cat/auth and core/cat/factory/custom_auth_handler.py: the permissions, the
--               handlers for keys and tokens, and the three classes of connections. jwt and bcrypt
--               are the parameters `AuthPackages`; the environment and the users are arguments.
--   MadHatter   core/cat/mad_hatter and core/cat/routes/plugins.py: `execute_hook`, and the life of plugins. A plugin's functions are
--               functions on the state of the cat that may raise; the folders are `Disk`.
--   Form        core/cat/experimental/form/cat_form.py: `CatForm.next` and all that it calls. The
--               model, the JSON parser, the validation and `submit` are the record `FormClass`.
--   Agents      core/cat/agents: `FormAgent`, `ProceduresAgent`, `MainAgent`. The chain that chooses a
--               procedure, the hooks and the memory agent are parameters.
--   Session     core/cat/memory/working_memory.py, `__call__`, `run`, `classify` and the messages of
--               core/cat/looking_glass/stray_cat.py, core/cat/routes/websocket. Validation, hooks,
--               recall and the main agent are the record `Cat`.
--   UserRoutes  core/cat/routes/users.py with the users of core/cat/db/crud.py: the requests that create,
--               read, change and delete users, and what they mean for the tokens of Auth.
--   RabbitHole  core/cat/rabbit_hole.py: the splitting of a text, the metadata and the storing of documents,
--               and the upload of memories. Hooks, splitter, embedder and database are `Services`.
--   Settings    core/cat/db and the routes of the settings, the language models, the embedders and the auth
--               handlers: TinyDB is `Table`, a record of operations and laws. `Choices` is what
--               core/cat/looking_glass/cheshire_cat.py loads by the settings.
--   Vectors     core/cat/memory/vector_memory.py, vector_memory_collection.py, core/cat/routes/memory and the
--               recall of core/cat/looking_glass/stray_cat.py. Qdrant is the records `Qdrant` and
--               `Collections`; the score of a memory has no meaning of its own.
--   Procedures  `embed_procedures` of core/cat/looking_glass/cheshire_cat.py: the triggers of tools and
--               forms in the procedural memory.
--   WhiteRabbit core/cat/looking_glass/white_rabbit.py: APScheduler is the record `Scheduler`.
--   CoreHooks   core/cat/mad_hatter/core_plugin/hooks: the hooks of the core plugin.
--   Uploads     core/cat/routes/upload.py: background tasks are a list that the answer comes with.
--   PluginSettings  the settings of core/cat/mad_hatter/plugin.py and their requests in
--               core/cat/routes/plugins.py.
--   Prelude     dictionaries in insertion order, Python's stable sort, texts, integers.
--
-- State is passed explicitly. A method that calls into the cat is an `Act` of Form/Action: it takes the
-- object with the rest of the cat and gives them back, with `none` for an exception; what was written
-- before the exception stays written. An operation of the `MadHatter` gives a Boolean that says whether
-- it returned. All loops are over lists, so no fuel is needed.
--
-- Not modelled: logging, prompts and message texts, reading and parsing files, the factories'
-- classes, streaming, the dumps of collections, the helpers of core/cat/utils.py, the plugins under
-- core/cat/plugins, and concurrency: turns of one user run one after the other, and background
-- tasks are only queued. The callback after a sync of the plugins is taken to return.
-- `list(set(...))`, whose order Python does not fix, is a parameter. Case folding of the model's
-- answer to a yes-or-no question is on ASCII letters.
pub mod Prelude
pub mod Cache
pub mod Auth
pub mod MadHatter
pub mod Form
pub mod Agents
pub mod Session
pub mod UserRoutes
pub mod RabbitHole
pub mod Settings
pub mod Vectors
pub mod Procedures
pub mod WhiteRabbit
pub mod CoreHooks
pub mod Uploads
pub mod PluginSettings
