-- ===== src/Lib.antt =====
-- BarkDirectX: a two-dimensional physics engine (bodies, colliders, a quadtree, contacts, triggers)
-- with the utilities it is built on, its samples and the application that shows them.
--
-- A world owns bodies and colliders in two vectors and hands out references to their slots. A frame
-- (`World::Update`) integrates the bodies, files the colliders' bounds in the quadtree, and walks its
-- leaves: pairs that overlap are pushed apart by a `Contact`, pairs with a trigger are reported to a
-- listener. Samples own a world each, fill it with bodies, listen to it, change it between frames and
-- turn it into data to draw. The sample manager owns six of them, of which one is set up at a time;
-- the application passes keys, buttons and the mouse on to it in each round of its main loop.
--
-- Files:
--   Common/Utility      Common/include/Utility.h: Clamp, Abs, Min, Max, Pow
--   Shape               Physics/include/Shape.h: Circle, Rectangle, Polygon; Shape/Intersect has the
--                       nine Intersect overloads, Shape/Symmetry, Shape/Points and Shape/Vertices what
--                       holds of them
--   Physics/Refs        Physics/include/Refs.h, and ColliderRefPair of Physics/include/Collider.h
--   Physics/Body        Physics/include/Body.h, Physics/src/Body.cpp
--   Physics/Collider    Physics/include/Collider.h, Physics/src/Collider.cpp: GetBounds; its bounds
--                       of polygons in Collider/Bounds
--   Physics/QuadTree    Physics/include/QuadTree.h, Physics/src/QuadTree.cpp: QuadTree, SetUpRoot,
--                       SubdivideNode, Insert; the modules below it: how many nodes are left
--                       (Potential), the invariant (Valid), the operations (Subdivide, Loops, Insert,
--                       Root), where entries are filed (Filed) and where they come from (Entries),
--                       which of them stand and which are dropped (Settled), and what exact halves
--                       cover (Coverage)
--   Physics/Contact     Physics/include/Contact.h, Physics/src/Contact.cpp: Resolve and its helpers
--   Physics/World       Physics/include/World.h, Physics/src/World.cpp: SetUp, TearDown, and the
--                       functions on bodies and colliders; World/Step has UpdateBodies, SetUpQuadTree
--                       and Update, World/Collisions has Overlap and UpdateQuadTreeCollisions,
--                       World/Placement, World/Extent and World/Coverage what SetUpQuadTree leaves,
--                       World/Ready what the samples rely on: colliders stand first and stay
--   Common/Allocators   Common/include/Allocators.h: LinearAllocator, StackAllocator, PoolAllocator,
--                       FreeListAllocator; Allocators/Adapters has ProxyAllocator and
--                       StandardAllocator
--   Common/UniquePtr    Common/include/UniquePtr.h: a heap of objects and the pointers of a program;
--                       UniquePtr/Ownership says who owns what
--   Common/Timer, Common/Random
--                       Common/include/Timer.h, Common/src/Timer.cpp, Common/include/Random.h
--   Samples             samples/include/Sample.h, samples/src/Sample.cpp: SetUp, Update, TearDown over
--                       the virtual functions of a sample; Samples/Metrics has
--                       samples/include/Metrics.h, Samples/Objects what several samples do alike,
--                       Samples/Laws and Samples/Staged what a sample promises to its manager, and
--                       Samples/Counters how its counters follow the listener's calls
--   Samples/Default, Samples/StarSystem, Samples/FormsTrigger, Samples/Trigger,
--   Samples/BouncingCollision, Samples/GroundCollision
--                       samples/src: the six samples; Life in each has what they promise
--   Samples/Manager     samples/include/SampleManager.h, samples/src/SampleManager.cpp, for samples of
--                       any type; Samples/All has the type of the six and their virtual calls
--   App                 SFML/include/SFMLApp.h, SFML/src/SFMLApp.cpp, Main.cpp: the main loop, drawing
--   Math, Math/Laws     `float` and DirectXMath, which are not part of the repository: a record of
--                       the operations that the code calls, and the laws that theorems assume
--   Math/Exact          integers in place of `float`, for concrete runs
--   Prelude             shared names, vectors as lists, the outcomes of a C++ call
--   Tests               runs on concrete inputs
--
-- A call ends in a value, an exception, `std::terminate` (an exception that leaves a `noexcept`
-- function), undefined behaviour (an access out of a vector or through a null pointer), or out of
-- fuel; a theorem that gives a value excludes the rest. Pointers and references into a vector are
-- indices, so aliasing is that of the source: a contact may be of a body with itself.
--
-- Fuel: `insert` and `update_quad_tree_collisions` recurse on fuel; a frame calls both with 6, one for
-- each depth from 0 to MAX_DEPTH, and `draw_quadtree` has as much. `Contact::Resolve` calls itself at
-- most once, so it has 2. The search of the free list has what a run gives it.
--
-- Numbers: indices and sizes are natural numbers; sizes this program reaches are far below 2 ^ 64,
-- and `_nodeIndex` never exceeds the 1365 nodes of the tree. `float` is abstract: theorems that need
-- order, components or signs name the laws, which exclude NaN where IEEE arithmetic does.
--
-- Outside the program: what SFML and Dear ImGui report in a round, the clock, the conversion of its
-- differences to seconds, and what the random distributions return are arguments, so theorems hold for
-- all of them. A world logs the calls of its listener; a sample handles the calls of a frame after the
-- frame, which is the same since its handlers touch nothing that a frame reads. `Run` ends after the
-- rounds that it is given or when the window is closed.
--
-- Not modelled: the names and descriptions of samples, memory that vectors reserve, the branches of
-- `SDL_ENABLE`, the layout of the window, HeapAllocator, which calls `malloc`, Fact of
-- Common/include/Utility.h, and the profiler's macros (External/TracyProfiler is another project's
-- library).
pub mod Prelude
pub mod Math
pub mod Common
pub mod Shape
pub mod Physics
pub mod Samples
pub mod App
pub mod Tests
